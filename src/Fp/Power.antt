-- ===== src/Fp/Power.antt =====
-- `pow` and `inv`: square and multiply, and the loop's bound.
use libprio_rs.Common.{
  ℕ, zero, suc, ◌+◌, ◌-◌, ◌*◌, ◌/◌, ◌%◌, ◌^◌, ◌≤◌, ◌<◌, ◌≡◌, sym, ap, ◌∙◌, false, arith, ◌==◌,
  Bool-cases, ==_iff, inl, inr,
}
use libprio_rs.Common.Bits.{bit_and-ones}
use libprio_rs.Common.Words.{wrapping_sub}
use libprio_rs.Fp.{FieldParameters, leading_zeros, montgomery, pow_round, pow_loop, pow, inv}
use libprio_rs.Fp.Log2.{leading_zeros_lem}
use libprio_rs.Fp.Element.{IsParameters, Represents, montgomery-Represents, mul-Represents}
use native.Mathlib.Nat.{
  zero-add, suc-add, pow-zero, div-one, mul-one, pow-suc, mod-lt, div-eq_of_lt, div-div-eq-div-mul,
}

pub pow-add : (a m n : ℕ) → a ^ (m + n) ≡ a ^ m * a ^ n
pow-add a zero n = rw (zero-add, pow-zero) (omega arith)
pow-add a (suc m) n = rw (suc-add, pow-suc, pow-suc, pow-add a m n) (omega arith)

-- The exponent's leading bits, one bit further.
pow_split :
    (a e i : ℕ) → a ^ (e / 2 ^ i) ≡ a ^ (e / 2 ^ suc i) * a ^ (e / 2 ^ suc i) * a ^ (e / 2 ^ i % 2)
pow_split a e i =
    let k = e / 2 ^ i in
    let half : e / 2 ^ suc i ≡ k / 2 = rw pow-suc (sym (div-div-eq-div-mul e (2 ^ i) 2)) in
    ap (λ (t : ℕ). a ^ t) {x = k} {y = k / 2 + k / 2 + k % 2} (omega arith)
    ∙ pow-add a (k / 2 + k / 2) (k % 2)
    ∙ rw (half, pow-add a (k / 2) (k / 2))

pow_one : (a b : ℕ) → (b == 0) ≡ false → b < 2 → a ^ b ≡ a
pow_one a b h lt =
    ap (λ (t : ℕ). a ^ t) {x = b} {y = 1} (ground arith)
    ∙ (rw (pow-suc a 0, pow-zero) (omega arith))

module _ (fp : FieldParameters) (ok : IsParameters fp) where
  open fp use {p}

  pow_round-Represents :
      (x a e i t : ℕ)
      → Represents fp x a
      → Represents fp t (a ^ (e / 2 ^ suc i))
      → Represents fp (pow_round fp x e i t) (a ^ (e / 2 ^ i))
  unfolding pow_round
  pow_round-Represents x a e i t r s =
      let b = e / 2 ^ i % 2 in
      let square = mul-Represents fp ok t t _ _ s s in
      rw (bit_and-ones 1 (e / 2 ^ i), pow_split a e i)
        (elim (Bool-cases (b == 0)) [
          | inl even ↦ rw (even, (==_iff b 0).0 even, pow-zero, mul-one) square
          | inr odd ↦
              rw (odd, pow_one a b odd (mod-lt _ (omega arith)))
                (mul-Represents fp ok _ x _ a square r)
        ])

  pow_loop-Represents :
      (x a e i t : ℕ)
      → Represents fp x a
      → Represents fp t (a ^ (e / 2 ^ i))
      → Represents fp (pow_loop fp x e i t) (a ^ e)
  unfolding pow_loop
  pow_loop-Represents x a e zero t r s = rw div-one at s
  pow_loop-Represents x a e (suc i) t r s =
      pow_loop-Represents x a e i (pow_round fp x e i t) r (pow_round-Represents x a e i t r s)

  -- `pow` raises to any `u128` exponent.
  pub pow-Represents :
      (x a e : ℕ) → e < 2 ^ 128 → Represents fp x a → Represents fp (pow fp x e) (a ^ e)
  unfolding pow
  pow-Represents x a e he r =
      pow_loop-Represents x a e (128 - leading_zeros e) (montgomery fp 1) r start
    where
      start : Represents fp (montgomery fp 1) (a ^ (e / 2 ^ (128 - leading_zeros e)))
      start =
          rw (div-eq_of_lt (leading_zeros_lem e he).1, pow-zero)
            (montgomery-Represents fp ok 1 (omega arith) (omega (arith, ok.r2_lt)))

  -- `inv` raises to p - 2.
  pub inv-Represents :
      (x a : ℕ) → 2 ≤ p → Represents fp x a → Represents fp (inv fp x) (a ^ (p - 2))
  unfolding inv
  inv-Represents x a h r =
      let e : wrapping_sub p 2 ≡ p - 2 = omega (arith, ok.montgomery_form.p_room) in
      rw e (pow-Represents x a (p - 2) (omega (arith, ok.montgomery_form.p_room)) r)
