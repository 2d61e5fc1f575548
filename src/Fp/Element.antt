-- ===== src/Fp/Element.antt =====
-- Field elements in the Montgomery domain, and the integers that they stand for.
use libprio_rs.Common.{
  ℕ, ◌+◌, ◌-◌, ◌*◌, ◌/◌, ◌%◌, ◌^◌, ◌≤◌, ◌<◌, ◌≡◌, refl, sym, ap, ◌∙◌, arith, lt→ltb,
}
use libprio_rs.Common.Congruence.{
  Congruent, mod_congr, congr_add, congr_mul, congr_cancel, congr_add_cancel, congr_mod,
  congr_unique,
}
use libprio_rs.Fp.{FieldParameters, add, sub, neg, mul, montgomery, residue}
use libprio_rs.Fp.Modular.{modp_lem, add_lem, sub_lem}
use libprio_rs.Fp.Montgomery.{IsMontgomery, mul_lem}
use native.Mathlib.Nat.{mul-le-mul, mod-lt, div-add-mod, mod-eq_of_lt}

-- Parameters with which the conversions work too: `r2` is (2 ^ 128) ^ 2 modulo p.
pub record IsParameters (fp : FieldParameters) : Type 0 where
  pub montgomery_form : IsMontgomery fp
  pub r2_lt : fp.r2 < fp.p
  pub r2_square : Congruent fp.p fp.r2 (2 ^ 256)

-- `x` is reduced and is the internal form of the integer `n` modulo p.
pub record Represents (fp : FieldParameters) (x n : ℕ) : Type 0 where
  pub reduced : x < fp.p
  pub congruent : Congruent fp.p x (n * 2 ^ 128)

module _ (fp : FieldParameters) (ok : IsParameters fp) where
  open fp use {p, mu, r2}

  m : IsMontgomery fp
  m = ok.montgomery_form

  -- An inverse of 2 ^ 128 modulo p, from `mu`.
  base_inverse : ℕ
  base_inverse = (p * mu + 1) / 2 ^ 64 * ((p * mu + 1) / 2 ^ 64)

  base_inverse_lem : Congruent p (2 ^ 128 * base_inverse) 1
  unfolding base_inverse
  base_inverse_lem =
      let j = (p * mu + 1) / 2 ^ 64 in
      let e : 2 ^ 64 * j ≡ 1 + p * mu =
        omega (arith, div-add-mod (p * mu + 1) (2 ^ 64), m.mu_inverse) in
      let c : Congruent p (2 ^ 64 * j) 1 = mod_congr p (2 ^ 64 * j) 1 0 mu (omega (arith, e)) in
      ap (λ (t : ℕ). t % p) {x = 2 ^ 128 * (j * j)} {y = 2 ^ 64 * j * (2 ^ 64 * j)} (omega arith)
      ∙ congr_mul p (2 ^ 64 * j) 1 (2 ^ 64 * j) 1 c c

  pub cancel_base : (a b : ℕ) → Congruent p (a * 2 ^ 128) (b * 2 ^ 128) → Congruent p a b
  cancel_base a b = congr_cancel p a b (2 ^ 128) base_inverse base_inverse_lem

  reduced_fits : (x y : ℕ) → x < p → y < p → x * y + p * 2 ^ 64 ≤ p * 2 ^ 128
  reduced_fits x y hx hy = omega (
    arith,
    mul-le-mul {n₁ = x} {m₁ = y} {n₂ = p} {m₂ = p} (omega arith) (omega arith),
    mul-le-mul {n₁ = p} {m₁ = p + 2 ^ 64} {n₂ = p} {m₂ = 2 ^ 128} (omega arith) m.p_room,
  )

  p_lt : p < 2 ^ 128
  p_lt = omega (arith, m.p_room)

  -- `montgomery` gives the internal form of any `u128` that is not too large; each n < p is not.
  pub montgomery-Represents :
      (n : ℕ) → n < 2 ^ 128 → n * r2 + p * 2 ^ 64 ≤ p * 2 ^ 128 → Represents fp (montgomery fp n) n
  unfolding montgomery
  montgomery-Represents n hn fits =
      let (below, e) = mul_lem fp m n r2 hn (omega (arith, ok.r2_lt, p_lt)) fits in
      rw (modp_lem (mul fp n r2) p (omega (arith, p_lt, below)) p_lt, lt→ltb _ _ below)
        (record {
          reduced = below;
          congruent = cancel_base _ _ (
              e
              ∙ congr_mul p n n r2 (2 ^ 256) refl ok.r2_square
              ∙ ap (λ (t : ℕ). t % p) {x = n * 2 ^ 256} {y = n * 2 ^ 128 * 2 ^ 128} (omega arith));
        })

  pub montgomery_reduced : (n : ℕ) → n < p → Represents fp (montgomery fp n) n
  montgomery_reduced n h =
      montgomery-Represents n (omega (arith, p_lt)) (reduced_fits n r2 h ok.r2_lt)

  -- `residue` gives back the integer, reduced.
  pub residue-Represents : (x n : ℕ) → Represents fp x n → residue fp x ≡ n % p
  unfolding residue
  residue-Represents x n r =
      let (below, e) =
        mul_lem fp m x 1 (omega (arith, p_lt, r.reduced)) (omega arith)
          (omega (arith, r.reduced)) in
      rw (modp_lem (mul fp x 1) p (omega (arith, p_lt, below)) p_lt, lt→ltb _ _ below)
        (congr_unique p _ _ below (mod-lt n m.p_pos) (
          cancel_base _ _
            (e ∙ ap (λ (t : ℕ). t % p) {x = x * 1} {y = x} (omega arith) ∙ r.congruent)
          ∙ sym (congr_mod p n)))

  pub mul-Represents :
      (x y a b : ℕ) → Represents fp x a → Represents fp y b → Represents fp (mul fp x y) (a * b)
  mul-Represents x y a b r s =
      let hx = r.reduced in
      let hy = s.reduced in
      let (below, e) =
        mul_lem fp m x y (omega (arith, p_lt)) (omega (arith, p_lt)) (reduced_fits x y hx hy) in
      record {
        reduced = below;
        congruent = cancel_base _ _ (
            e
            ∙ congr_mul p x (a * 2 ^ 128) y (b * 2 ^ 128) r.congruent s.congruent
            ∙ ap (λ (t : ℕ). t % p) {x = a * 2 ^ 128 * (b * 2 ^ 128)}
                {y = a * b * 2 ^ 128 * 2 ^ 128} (omega arith));
      }

  pub add-Represents :
      (x y a b : ℕ) → Represents fp x a → Represents fp y b → Represents fp (add fp x y) (a + b)
  add-Represents x y a b r s = rw (add_lem fp x y p_lt r.reduced s.reduced) (record {
    reduced = mod-lt (x + y) m.p_pos;
    congruent =
        congr_mod p (x + y)
        ∙ congr_add p x (a * 2 ^ 128) y (b * 2 ^ 128) r.congruent s.congruent
        ∙ ap (λ (t : ℕ). t % p) {x = a * 2 ^ 128 + b * 2 ^ 128} {y = (a + b) * 2 ^ 128}
            (omega arith);
  })

  -- The difference is any number that gives `a` back when `b` is added.
  pub sub-Represents :
      (x y a b c : ℕ)
      → Represents fp x a
      → Represents fp y b
      → Congruent p (c + b) a
      → Represents fp (sub fp x y) c
  sub-Represents x y a b c r s h = rw (sub_lem fp x y p_lt r.reduced s.reduced) (record {
    reduced = mod-lt (x + p - y) m.p_pos;
    congruent = congr_mod p (x + p - y) ∙ congr_add_cancel p _ _ y m.p_pos restored;
  })
    where
      restored : Congruent p (x + p - y + y) (c * 2 ^ 128 + y)
      restored =
          mod_congr p (x + p - y + y) x 0 1 (omega (arith, s.reduced))
          ∙ r.congruent
          ∙ sym (congr_mul p (c + b) a (2 ^ 128) (2 ^ 128) h refl)
          ∙ ap (λ (t : ℕ). t % p) {x = (c + b) * 2 ^ 128} {y = c * 2 ^ 128 + b * 2 ^ 128}
              (omega arith)
          ∙ congr_add p (c * 2 ^ 128) (c * 2 ^ 128) (b * 2 ^ 128) y refl (sym s.congruent)

  pub zero-Represents : Represents fp 0 0
  zero-Represents = record { reduced = m.p_pos; congruent = refl }

  pub neg-Represents :
      (x a c : ℕ) → Represents fp x a → Congruent p (c + a) 0 → Represents fp (neg fp x) c
  unfolding neg
  neg-Represents x a c r h = sub-Represents 0 x 0 a c zero-Represents r h

  -- Two reduced elements that stand for the same integer modulo p are the same word.
  pub Represents-unique :
      (x y a b : ℕ) → Represents fp x a → Represents fp y b → Congruent p a b → x ≡ y
  Represents-unique x y a b r s h =
      congr_unique p x y r.reduced s.reduced
        (r.congruent ∙ congr_mul p a b (2 ^ 128) (2 ^ 128) h refl ∙ sym s.congruent)

  -- `residue` after `montgomery`, and `montgomery` after `residue`.
  pub residue-montgomery : (n : ℕ) → n < p → residue fp (montgomery fp n) ≡ n
  residue-montgomery n h =
      residue-Represents (montgomery fp n) n (montgomery_reduced n h) ∙ mod-eq_of_lt h

  -- Every reduced word stands for an integer, its residue.
  pub residue-congruent : (x : ℕ) → x < p → Represents fp x (residue fp x)
  unfolding residue
  residue-congruent x h =
      let (below, e) = mul_lem fp m x 1 (omega (arith, p_lt)) (omega arith) (omega arith) in
      rw (modp_lem (mul fp x 1) p (omega (arith, p_lt, below)) p_lt, lt→ltb _ _ below)
        (record {
          reduced = h;
          congruent = ap (λ (t : ℕ). t % p) {x = x} {y = x * 1} (omega arith) ∙ sym e;
        })

  pub residue-lt : (x : ℕ) → x < p → residue fp x < p
  residue-lt x h =
      let e = residue-Represents x (residue fp x) (residue-congruent x h) in
      omega (arith, mod-lt (residue fp x) m.p_pos)

  pub montgomery-residue : (x : ℕ) → x < p → montgomery fp (residue fp x) ≡ x
  montgomery-residue x h =
      Represents-unique _ x (residue fp x) (residue fp x) (montgomery_reduced _ (residue-lt x h))
        (residue-congruent x h) refl
