-- ===== src/Fp/Phases.antt =====
-- The limb arithmetic of `mul`, phase by phase.
use libprio_rs.Common.{ℕ, ◌+◌, ◌-◌, ◌*◌, ◌/◌, ◌%◌, ◌^◌, ◌≤◌, ◌<◌, ◌≡◌, ap, ◌∙◌, arith}
use libprio_rs.Common.Bits.{bit_and-ones}
use libprio_rs.Common.Words.{add128, mul128}
use libprio_rs.Fp.{lo64, hi64, Limbs, product, reduce_first, reduce_second}
use native.Mathlib.Nat.{mul-le-mul, mod-eq_of_lt, div-add-mod}

pub lo64-hi64 : (x : ℕ) → lo64 x + 2 ^ 64 * hi64 x ≡ x
unfolding lo64 hi64
lo64-hi64 x = omega (arith, bit_and-ones 64 x)

pub lo64-lt : (x : ℕ) → lo64 x < 2 ^ 64
unfolding lo64
lo64-lt x = omega (arith, bit_and-ones 64 x)

-- A product of two words, in limbs.
word_mul :
    (x y : ℕ)
    → x < 2 ^ 64
    → y < 2 ^ 64
    → (lo64 (mul128 x y) + 2 ^ 64 * hi64 (mul128 x y) ≡ x * y)
      × (lo64 (mul128 x y) < 2 ^ 64)
      × (hi64 (mul128 x y) + 2 ≤ 2 ^ 64)
      × (x * y ≤ (2 ^ 64 - 1) * (2 ^ 64 - 1))
word_mul x y hx hy =
    (lo64-hi64 _ ∙ whole, lo64-lt _, omega (arith, lo64-hi64 (mul128 x y), whole, small), small)
  where
    small : x * y ≤ (2 ^ 64 - 1) * (2 ^ 64 - 1)
    small =
        mul-le-mul {n₁ = x} {m₁ = y} {n₂ = 2 ^ 64 - 1} {m₂ = 2 ^ 64 - 1} (omega arith) (omega arith)

    whole : mul128 x y ≡ x * y
    whole = mod-eq_of_lt (omega (arith, small))

word_add :
    (x y : ℕ)
    → x < 2 ^ 64
    → y < 2 ^ 64
    → (lo64 (add128 x y) + 2 ^ 64 * hi64 (add128 x y) ≡ x + y)
      × (lo64 (add128 x y) < 2 ^ 64)
      × (hi64 (add128 x y) ≤ 1)
word_add x y hx hy = (lo64-hi64 _ ∙ whole, lo64-lt _, omega (arith, lo64-hi64 (add128 x y), whole))
  where
    whole : add128 x y ≡ x + y
    whole = mod-eq_of_lt (omega arith)

-- The sum of two words and a carry.
word_add_carry :
    (x y c : ℕ)
    → x < 2 ^ 64
    → y < 2 ^ 64
    → c ≤ 1
    → (lo64 (add128 (add128 x y) c) + 2 ^ 64 * hi64 (add128 (add128 x y) c) ≡ x + y + c)
      × (lo64 (add128 (add128 x y) c) < 2 ^ 64)
      × (hi64 (add128 (add128 x y) c) ≤ 2)
word_add_carry x y c hx hy hc =
    (lo64-hi64 _ ∙ whole, lo64-lt _, omega (arith, lo64-hi64 (add128 (add128 x y) c), whole))
  where
    whole : add128 (add128 x y) c ≡ x + y + c
    whole = omega arith

abbrev pub value : Limbs → ℕ
value z = z.zz0 + 2 ^ 64 * z.zz1 + 2 ^ 128 * z.zz2 + 2 ^ 192 * z.zz3

pub record IsLimbs (z : Limbs) : Type 0 where
  pub zz0_lt : z.zz0 < 2 ^ 64
  pub zz1_lt : z.zz1 < 2 ^ 64
  pub zz2_lt : z.zz2 < 2 ^ 64
  pub zz3_lt : z.zz3 < 2 ^ 64

-- The first phase computes the product.
pub product_lem :
    (x0 x1 y0 y1 : ℕ)
    → x0 < 2 ^ 64
    → x1 < 2 ^ 64
    → y0 < 2 ^ 64
    → y1 < 2 ^ 64
    → IsLimbs (product x0 x1 y0 y1)
      × (value (product x0 x1 y0 y1)
          ≡ x0 * y0 + 2 ^ 64 * (x0 * y1) + 2 ^ 64 * (x1 * y0) + 2 ^ 128 * (x1 * y1))
unfolding product
product_lem x0 x1 y0 y1 hx0 hx1 hy0 hy1 =
    let m₁ = word_mul x0 y0 hx0 hy0 in
    let m₂ = word_mul x0 y1 hx0 hy1 in
    let m₅ = word_mul x1 y0 hx1 hy0 in
    let m₈ = word_mul x1 y1 hx1 hy1 in
    let carry₁ = hi64 (mul128 x0 y0) in
    let lo₂ = lo64 (mul128 x0 y1) in
    let hi₂ = hi64 (mul128 x0 y1) in
    let a₃ = word_add lo₂ carry₁ (omega arith) (omega arith) in
    let result₃ = add128 lo₂ carry₁ in
    let a₄ = word_add hi₂ (hi64 result₃) (omega arith) (omega arith) in
    let result₄ = add128 hi₂ (hi64 result₃) in
    let lo₅ = lo64 (mul128 x1 y0) in
    let hi₅ = hi64 (mul128 x1 y0) in
    let a₆ = word_add (lo64 result₃) lo₅ (omega arith) (omega arith) in
    let result₆ = add128 (lo64 result₃) lo₅ in
    let a₇ = word_add hi₅ (hi64 result₆) (omega arith) (omega arith) in
    let result₇ = add128 hi₅ (hi64 result₆) in
    let lo₈ = lo64 (mul128 x1 y1) in
    let hi₈ = hi64 (mul128 x1 y1) in
    let a₉ = word_add lo₈ (lo64 result₇) (omega arith) (omega arith) in
    let result₉ = add128 lo₈ (lo64 result₇) in
    let a₁₀ = word_add hi₈ (hi64 result₉) (omega arith) (omega arith) in
    let result₁₀ = add128 hi₈ (hi64 result₉) in
    let a₁₁ = word_add (lo64 result₄) (lo64 result₉) (omega arith) (omega arith) in
    let result₁₁ = add128 (lo64 result₄) (lo64 result₉) in
    let a₁₂ = word_add (lo64 result₁₀) (hi64 result₁₁) (omega arith) (omega arith) in
    (record { zz0_lt = m₁.1; zz1_lt = a₆.1; zz2_lt = a₁₁.1; zz3_lt = a₁₂.1 }, omega arith)

-- What `mu` is for: with w = mu * z0 the sum z0 + p0 * w is a multiple of 2 ^ 64.
cancels :
    (p0 mu z0 : ℕ)
    → (p0 * mu + 1) % 2 ^ 64 ≡ 0
    → z0 + p0 * (mu * z0 % 2 ^ 64) + 2 ^ 64 * (mu * z0 / 2 ^ 64 * p0)
      ≡ 2 ^ 64 * ((p0 * mu + 1) / 2 ^ 64 * z0)
cancels p0 mu z0 h = omega (
  arith,
  ap (λ (t : ℕ). p0 * t) (div-add-mod (mu * z0) (2 ^ 64)),
  ap (λ (t : ℕ). t * z0) (div-add-mod (p0 * mu + 1) (2 ^ 64)),
  ap (λ (t : ℕ). t * z0) h,
)

module _ (p0 p1 mu : ℕ) (hp0 : p0 < 2 ^ 64) (hp1 : p1 < 2 ^ 64) where
  -- The first round adds p * w and leaves a lowest limb of 0.
  pub reduce_first_lem :
      (z : Limbs)
      → IsLimbs z
      → (p0 * mu + 1) % 2 ^ 64 ≡ 0
      → value z + p0 * (mu * z.zz0 % 2 ^ 64) + 2 ^ 64 * (p1 * (mu * z.zz0 % 2 ^ 64)) < 2 ^ 256
      → IsLimbs (reduce_first p0 p1 mu z)
        × ((reduce_first p0 p1 mu z).zz0 ≡ 0)
        × (value (reduce_first p0 p1 mu z)
            ≡ value z + p0 * (mu * z.zz0 % 2 ^ 64) + 2 ^ 64 * (p1 * (mu * z.zz0 % 2 ^ 64)))
  unfolding reduce_first
  reduce_first_lem z l hmu fits =
      let w = mu * z.zz0 % 2 ^ 64 in
      let hz0 = l.zz0_lt in
      let hz1 = l.zz1_lt in
      let hz2 = l.zz2_lt in
      let hz3 = l.zz3_lt in
      let c = cancels p0 mu z.zz0 hmu in
      let m₁ = word_mul p0 w hp0 (omega arith) in
      let m₄ = word_mul p1 w hp1 (omega arith) in
      let lo₁ = lo64 (mul128 p0 w) in
      let hi₁ = hi64 (mul128 p0 w) in
      let a₂ = word_add z.zz0 lo₁ hz0 (omega arith) in
      let result₂ = add128 z.zz0 lo₁ in
      let a₃ = word_add hi₁ (hi64 result₂) (omega arith) (omega arith) in
      let result₃ = add128 hi₁ (hi64 result₂) in
      let lo₄ = lo64 (mul128 p1 w) in
      let hi₄ = hi64 (mul128 p1 w) in
      let a₅ = word_add lo₄ (lo64 result₃) (omega arith) (omega arith) in
      let result₅ = add128 lo₄ (lo64 result₃) in
      let a₆ = word_add hi₄ (hi64 result₅) (omega arith) (omega arith) in
      let result₆ = add128 hi₄ (hi64 result₅) in
      let a₇ = word_add z.zz1 (lo64 result₅) hz1 (omega arith) in
      let result₇ = add128 z.zz1 (lo64 result₅) in
      let a₈ = word_add_carry z.zz2 (lo64 result₆) (hi64 result₇) hz2 (omega arith) (omega arith) in
      let result₈ = add128 (add128 z.zz2 (lo64 result₆)) (hi64 result₇) in
      let a₉ = word_add z.zz3 (hi64 result₈) hz3 (omega arith) in
      (
        record { zz0_lt = a₂.1; zz1_lt = a₇.1; zz2_lt = a₈.1; zz3_lt = a₉.1 },
        omega arith,
        omega arith,
      )

  -- The second round adds p * w * 2 ^ 64; its value is in the two top limbs and the carry.
  pub reduce_second_lem :
      (z : Limbs)
      → IsLimbs z
      → (p0 * mu + 1) % 2 ^ 64 ≡ 0
      → ((reduce_second p0 p1 mu z).0.zz2 < 2 ^ 64)
        × ((reduce_second p0 p1 mu z).0.zz3 < 2 ^ 64)
        × ((reduce_second p0 p1 mu z).1 ≤ 2)
        × (2 ^ 64
              * ((reduce_second p0 p1 mu z).0.zz2
                  + 2 ^ 64 * (reduce_second p0 p1 mu z).0.zz3
                  + 2 ^ 128 * (reduce_second p0 p1 mu z).1)
            ≡ z.zz1
              + 2 ^ 64 * z.zz2
              + 2 ^ 128 * z.zz3
              + p0 * (mu * z.zz1 % 2 ^ 64)
              + 2 ^ 64 * (p1 * (mu * z.zz1 % 2 ^ 64)))
  unfolding reduce_second
  reduce_second_lem z l hmu =
      let w = mu * z.zz1 % 2 ^ 64 in
      let hz1 = l.zz1_lt in
      let hz2 = l.zz2_lt in
      let hz3 = l.zz3_lt in
      let c = cancels p0 mu z.zz1 hmu in
      let m₁ = word_mul p0 w hp0 (omega arith) in
      let m₄ = word_mul p1 w hp1 (omega arith) in
      let lo₁ = lo64 (mul128 p0 w) in
      let hi₁ = hi64 (mul128 p0 w) in
      let a₂ = word_add z.zz1 lo₁ hz1 (omega arith) in
      let result₂ = add128 z.zz1 lo₁ in
      let a₃ = word_add hi₁ (hi64 result₂) (omega arith) (omega arith) in
      let result₃ = add128 hi₁ (hi64 result₂) in
      let lo₄ = lo64 (mul128 p1 w) in
      let hi₄ = hi64 (mul128 p1 w) in
      let a₅ = word_add lo₄ (lo64 result₃) (omega arith) (omega arith) in
      let result₅ = add128 lo₄ (lo64 result₃) in
      let a₆ = word_add hi₄ (hi64 result₅) (omega arith) (omega arith) in
      let result₆ = add128 hi₄ (hi64 result₅) in
      let a₇ = word_add z.zz2 (lo64 result₅) hz2 (omega arith) in
      let result₇ = add128 z.zz2 (lo64 result₅) in
      let a₈ = word_add_carry z.zz3 (lo64 result₆) (hi64 result₇) hz3 (omega arith) (omega arith) in
      (a₇.1, a₈.1, a₈.2, omega arith)
