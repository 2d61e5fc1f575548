-- ===== src/Fp/Montgomery.antt =====
-- Montgomery multiplication: `mul x y` is x * y / 2 ^ 128 modulo p.
use Prim.Native.Nat.{bit_or}
use libprio_rs.Common.{
  ℕ, ◌+◌, ◌-◌, ◌*◌, ◌%◌, ◌^◌, ◌≤◌, ◌<◌, ◌≡◌, ap, ◌∙◌, arith, ltb, ltb→lt, Bool-cases, inl, inr,
  if◌then◌else◌,
}
use libprio_rs.Common.Congruence.{mod_congr}
use libprio_rs.Common.Bits.{bit_or-shifted}
use libprio_rs.Common.Words.{word128, shl128, select_mask}
use libprio_rs.Fp.{
  FieldParameters, lo64, hi64, Limbs, product, reduce_first, reduce_second, final_subtraction, mul,
}
use libprio_rs.Fp.Phases.{lo64-hi64, lo64-lt, product_lem, reduce_first_lem, reduce_second_lem}
use mathlib.Core.Path.{ap₂}
use native.Mathlib.Nat.{mul-le-mul_left, mod-eq_of_lt}

-- What the multiplication relies on: p is not 0 and leaves room for a carry, and mu = -1 / p
-- modulo 2 ^ 64.
pub record IsMontgomery (fp : FieldParameters) : Type 0 where
  pub p_pos : 0 < fp.p
  pub p_room : fp.p + 2 ^ 64 ≤ 2 ^ 128
  pub mu_inverse : (fp.p * fp.mu + 1) % 2 ^ 64 ≡ 0

-- The final subtraction brings a value below 2 * p, given with its carry, below p.
final_subtraction_lem :
    (p : ℕ) (z : Limbs) (carry : ℕ)
    → p < 2 ^ 128
    → z.zz2 < 2 ^ 64
    → z.zz3 < 2 ^ 64
    → z.zz2 + 2 ^ 64 * z.zz3 + 2 ^ 128 * carry < 2 * p
    → final_subtraction p z carry ≡ (
        if ltb (z.zz2 + 2 ^ 64 * z.zz3 + 2 ^ 128 * carry) p
        then z.zz2 + 2 ^ 64 * z.zz3 + 2 ^ 128 * carry
        else z.zz2 + 2 ^ 64 * z.zz3 + 2 ^ 128 * carry - p)
unfolding final_subtraction
final_subtraction_lem p z carry hp h2 h3 hv =
    rw
      (
        joined,
        select_mask _ (z.zz2 + z.zz3 * 2 ^ 64) ((z.zz2 + z.zz3 * 2 ^ 64 + word128 - p) % word128)
            (omega arith) (omega arith),
      )
      (ground arith)
  where
    joined : bit_or z.zz2 (shl128 z.zz3 64) ≡ z.zz2 + z.zz3 * 2 ^ 64
    joined =
        ap (λ (t : ℕ). bit_or z.zz2 t) (mod-eq_of_lt (omega arith))
        ∙ bit_or-shifted 64 z.zz2 z.zz3 h2

hi64-lt : (x : ℕ) → x < 2 ^ 128 → hi64 x < 2 ^ 64
hi64-lt x h = omega (arith, lo64-hi64 x)

-- Taking p off once, where v is below 2 * p, reduces v and keeps its class.
subtract_once :
    (p v e k r : ℕ)
    → v < 2 * p
    → v * 2 ^ 128 ≡ e + p * k
    → r ≡ (if ltb v p then v else v - p)
    → (r < p) × (r * 2 ^ 128 % p ≡ e % p)
subtract_once p v e k r hv he hr = elim (Bool-cases (ltb v p)) [
  | inl below ↦
      let hr' : r ≡ v = hr ∙ rw below in
      (omega (arith, ltb→lt v p below), mod_congr p (r * 2 ^ 128) e 0 k (omega arith))
  | inr above ↦
      let hr' : r ≡ v - p = hr ∙ rw above in
      let pv : p ≤ v = ground arith in
      (omega arith, mod_congr p (r * 2 ^ 128) e (2 ^ 128) k (omega arith))
]

module _ (fp : FieldParameters) (m : IsMontgomery fp) where
  open fp use {p, mu}

  low_mu_inverse : (lo64 p * mu + 1) % 2 ^ 64 ≡ 0
  low_mu_inverse = omega (arith, m.mu_inverse, ap (λ (t : ℕ). t * mu) (lo64-hi64 p))

  -- The product of two numbers, by their limbs.
  limbs_mul :
      (x y : ℕ)
      → lo64 x * lo64 y
          + 2 ^ 64 * (lo64 x * hi64 y)
          + 2 ^ 64 * (hi64 x * lo64 y)
          + 2 ^ 128 * (hi64 x * hi64 y)
        ≡ x * y
  limbs_mul x y = omega (arith, ap₂ ◌*◌ (lo64-hi64 x) (lo64-hi64 y))

  times_modulus : (w : ℕ) → lo64 p * w + 2 ^ 64 * (hi64 p * w) ≡ p * w
  times_modulus w = omega (arith, ap (λ (t : ℕ). t * w) (lo64-hi64 p))

  times_modulus-le : (w : ℕ) → w < 2 ^ 64 → p * w + p ≤ p * 2 ^ 64
  times_modulus-le w h = omega (arith, mul-le-mul_left {m = w + 1} {n = 2 ^ 64} p (omega arith))

  -- What is left for the final subtraction: a number below 2 * p in the class of the quotient.
  before_subtraction :
      (x y : ℕ)
      → x < 2 ^ 128
      → y < 2 ^ 128
      → x * y + p * 2 ^ 64 ≤ p * 2 ^ 128
      → (v k : ℕ) × (v < 2 * p)
        × (v * 2 ^ 128 ≡ x * y + p * k)
        × (mul fp x y ≡ (if ltb v p then v else v - p))
  unfolding mul
  before_subtraction x y hx hy fits =
      let x0 = lo64 x in
      let x1 = hi64 x in
      let y0 = lo64 y in
      let y1 = hi64 y in
      let p0 = lo64 p in
      let p1 = hi64 p in
      let z = product x0 x1 y0 y1 in
      let whole = limbs_mul x y in
      let (lz, vz) =
        product_lem x0 x1 y0 y1 (lo64-lt x) (hi64-lt x hx) (lo64-lt y) (hi64-lt y hy) in
      let w = mu * z.zz0 % 2 ^ 64 in
      let pw = times_modulus w in
      let room = m.p_room in
      let small = times_modulus-le w (omega arith) in
      let (lz', zero', vz') =
        reduce_first_lem p0 p1 mu (lo64-lt p) (hi64-lt p (omega arith)) z lz low_mu_inverse
          (omega arith) in
      let z' = reduce_first p0 p1 mu z in
      let w' = mu * z'.zz1 % 2 ^ 64 in
      let pw' = times_modulus w' in
      let small' = times_modulus-le w' (omega arith) in
      let (h2, h3, hc, v) =
        reduce_second_lem p0 p1 mu (lo64-lt p) (hi64-lt p (omega arith)) z' lz' low_mu_inverse in
      let z'' = (reduce_second p0 p1 mu z').0 in
      let carry = (reduce_second p0 p1 mu z').1 in
      let f = final_subtraction_lem p z'' carry (omega arith) h2 h3 (omega arith) in
      (z''.zz2 + 2 ^ 64 * z''.zz3 + 2 ^ 128 * carry, w + 2 ^ 64 * w', omega arith, omega arith, f)

  -- `mul` is Montgomery multiplication: the result is reduced, and 2 ^ 128 times it is the product
  -- modulo p. The inputs need not be reduced, as long as their product is below p * 2 ^ 128 by a
  -- margin of p * 2 ^ 64.
  pub mul_lem :
      (x y : ℕ)
      → x < 2 ^ 128
      → y < 2 ^ 128
      → x * y + p * 2 ^ 64 ≤ p * 2 ^ 128
      → (mul fp x y < p) × (mul fp x y * 2 ^ 128 % p ≡ x * y % p)
  mul_lem x y hx hy fits =
      let (v, k, hv, he, hr) = before_subtraction x y hx hy fits in
      subtract_once p v (x * y) k (mul fp x y) hv he hr
