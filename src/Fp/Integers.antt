-- ===== src/Fp/Integers.antt =====
-- The operations of src/fp.rs as arithmetic modulo p, by way of the conversions.
use libprio_rs.Common.{ℕ, ◌+◌, ◌-◌, ◌*◌, ◌%◌, ◌^◌, ◌<◌, ◌≡◌, sym, arith}
use libprio_rs.Common.Congruence.{mod_congr, congr_mod}
use libprio_rs.Fp.{FieldParameters, add, sub, mul, neg, pow, montgomery, residue}
use libprio_rs.Fp.Element.{
  IsParameters, Represents, Represents-unique, montgomery_reduced, residue-Represents,
  add-Represents, sub-Represents, mul-Represents, neg-Represents,
}
use libprio_rs.Fp.Power.{pow-Represents}
use native.Mathlib.Nat.{mod-lt}

module _ (fp : FieldParameters) (ok : IsParameters fp) where
  open fp use {p}

  -- A word that stands for an integer is the internal form of its residue.
  Represents-montgomery : (x n : ℕ) → Represents fp x n → x ≡ montgomery fp (n % p)
  Represents-montgomery x n r =
      let low = mod-lt n ok.montgomery_form.p_pos in
      Represents-unique fp ok x (montgomery fp (n % p)) n (n % p) r
        (montgomery_reduced fp ok (n % p) low) (sym (congr_mod p n))

  -- On the internal forms of reduced integers a and b, `add`, `sub`, `mul` and `neg` give the
  -- internal forms of a + b, a - b, a * b and -a modulo p, which are reduced words.
  pub operations-montgomery :
      (a b : ℕ)
      → a < p
      → b < p
      → (add fp (montgomery fp a) (montgomery fp b) ≡ montgomery fp ((a + b) % p))
        × (sub fp (montgomery fp a) (montgomery fp b) ≡ montgomery fp ((a + p - b) % p))
        × (mul fp (montgomery fp a) (montgomery fp b) ≡ montgomery fp (a * b % p))
        × (neg fp (montgomery fp a) ≡ montgomery fp ((p - a) % p))
        × ((n : ℕ) → montgomery fp (n % p) < p)
  operations-montgomery a b ha hb =
      let x = montgomery fp a in
      let y = montgomery fp b in
      let rx = montgomery_reduced fp ok a ha in
      let ry = montgomery_reduced fp ok b hb in
      (
        Represents-montgomery _ (a + b) (add-Represents fp ok x y a b rx ry),
        Represents-montgomery _ (a + p - b) (
            sub-Represents fp ok x y a b (a + p - b) rx ry
              (mod_congr p (a + p - b + b) a 0 1 (omega arith))),
        Represents-montgomery _ (a * b) (mul-Represents fp ok x y a b rx ry),
        Represents-montgomery _ (p - a)
            (neg-Represents fp ok x a (p - a) rx (mod_congr p (p - a + a) 0 0 1 (omega arith))),
        λ n. (montgomery_reduced fp ok (n % p) (mod-lt n ok.montgomery_form.p_pos)).reduced,
      )

  -- `pow` is exponentiation modulo p, for every exponent that is a `u128`.
  pub pow-residue :
      (a e : ℕ) → a < p → e < 2 ^ 128 → residue fp (pow fp (montgomery fp a) e) ≡ a ^ e % p
  pow-residue a e ha he =
      residue-Represents fp ok _ (a ^ e)
        (pow-Represents fp ok (montgomery fp a) a e he (montgomery_reduced fp ok a ha))
