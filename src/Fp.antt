-- ===== src/Fp.antt =====
-- src/fp.rs: arithmetic in GF(p) on `u128`, in Montgomery form with base 2 ^ 128.
pub mod Modular
pub mod Phases
pub mod Montgomery
pub mod Element
pub mod Log2
pub mod Power
pub mod Params
pub mod Roots
pub mod Integers
use Prim.Native.Nat.{bit_and, bit_or}
use libprio_rs.Common.{
  ℕ, zero, suc, ◌+◌, ◌-◌, ◌*◌, ◌/◌, ◌%◌, ◌^◌, Bool, true, false, not, List, ltb, leb, ◌==◌,
  if◌then◌else◌,
}
use libprio_rs.Common.Words.{
  word64, bool_word, overflowing_add, overflowing_sub, wrapping_add, wrapping_sub, wrapping_mul64,
  complement, add128, mul128, shl128,
}

-- `mu` is a `u64`; every other number but `num_roots` is a `u128`.
pub record FieldParameters : Type 0 where
  pub p : ℕ
  pub mu : ℕ
  pub r2 : ℕ
  pub g : ℕ
  pub num_roots : ℕ
  pub bit_mask : ℕ
  pub roots : List ℕ

unfoldable pub lo64 : ℕ → ℕ
lo64 x = bit_and x (2 ^ 64 - 1)

unfoldable pub hi64 : ℕ → ℕ
hi64 x = x / 2 ^ 64

unfoldable pub modp : ℕ → ℕ → ℕ
modp x p =
    let (z, carry) = overflowing_sub x p in
    let m = wrapping_sub 0 (bool_word carry) in wrapping_add z (bit_and m p)

-- The leading zeros among the lowest `n` bits of `x`.
unfoldable pub leading_zeros_of : ℕ → ℕ → ℕ
leading_zeros_of zero x = 0
leading_zeros_of (suc n) x =
    let rest = leading_zeros_of n x in if x / 2 ^ n == 0 then suc rest else 0

unfoldable pub leading_zeros : ℕ → ℕ
leading_zeros = leading_zeros_of 128

-- The ceiling of the base-2 logarithm. `127 - x.leading_zeros()` is a `u32`.
unfoldable pub log2 : ℕ → ℕ
log2 x =
    let y = (127 + 2 ^ 32 - leading_zeros x) % 2 ^ 32 in
    add128 y (bool_word (ltb (2 ^ (y % 128)) x))

-- The four limbs `zz` of the source's product, lowest first.
pub record Limbs : Type 0 where
  pub zz0 : ℕ
  pub zz1 : ℕ
  pub zz2 : ℕ
  pub zz3 : ℕ

-- "Integer multiplication": the limbs of x * y.
unfoldable pub product : (x0 x1 y0 y1 : ℕ) → Limbs
product x0 x1 y0 y1 =
    let result₁ = mul128 x0 y0 in
    let carry₁ = hi64 result₁ in
    let zz0 = lo64 result₁ in
    let result₂ = mul128 x0 y1 in
    let hi₂ = hi64 result₂ in
    let lo₂ = lo64 result₂ in
    let result₃ = add128 lo₂ carry₁ in
    let zz1 = lo64 result₃ in
    let cc₃ = hi64 result₃ in
    let result₄ = add128 hi₂ cc₃ in
    let zz2 = lo64 result₄ in
    let result₅ = mul128 x1 y0 in
    let hi₅ = hi64 result₅ in
    let lo₅ = lo64 result₅ in
    let result₆ = add128 zz1 lo₅ in
    let zz1' = lo64 result₆ in
    let cc₆ = hi64 result₆ in
    let result₇ = add128 hi₅ cc₆ in
    let carry₇ = lo64 result₇ in
    let result₈ = mul128 x1 y1 in
    let hi₈ = hi64 result₈ in
    let lo₈ = lo64 result₈ in
    let result₉ = add128 lo₈ carry₇ in
    let lo₉ = lo64 result₉ in
    let cc₉ = hi64 result₉ in
    let result₁₀ = add128 hi₈ cc₉ in
    let hi₁₀ = lo64 result₁₀ in
    let result₁₁ = add128 zz2 lo₉ in
    let zz2' = lo64 result₁₁ in
    let cc₁₁ = hi64 result₁₁ in
    let result₁₂ = add128 hi₁₀ cc₁₁ in
    record { zz0 = zz0; zz1 = zz1'; zz2 = zz2'; zz3 = lo64 result₁₂ }

-- The first round of the Montgomery reduction: p * w is added, with w = mu * zz0, and the carry
-- out of `zz3` is dropped.
unfoldable pub reduce_first : (p0 p1 mu : ℕ) → Limbs → Limbs
reduce_first p0 p1 mu z =
    let w = wrapping_mul64 mu z.zz0 in
    let result₁ = mul128 p0 w in
    let hi₁ = hi64 result₁ in
    let lo₁ = lo64 result₁ in
    let result₂ = add128 z.zz0 lo₁ in
    let zz0 = lo64 result₂ in
    let cc₂ = hi64 result₂ in
    let result₃ = add128 hi₁ cc₂ in
    let carry₃ = lo64 result₃ in
    let result₄ = mul128 p1 w in
    let hi₄ = hi64 result₄ in
    let lo₄ = lo64 result₄ in
    let result₅ = add128 lo₄ carry₃ in
    let lo₅ = lo64 result₅ in
    let cc₅ = hi64 result₅ in
    let result₆ = add128 hi₄ cc₅ in
    let hi₆ = lo64 result₆ in
    let result₇ = add128 z.zz1 lo₅ in
    let zz1 = lo64 result₇ in
    let cc₇ = hi64 result₇ in
    let result₈ = add128 (add128 z.zz2 hi₆) cc₇ in
    let zz2 = lo64 result₈ in
    let cc₈ = hi64 result₈ in
    let result₉ = add128 z.zz3 cc₈ in record { zz0 = zz0; zz1 = zz1; zz2 = zz2; zz3 = lo64 result₉ }

-- The second round: p * w * 2 ^ 64 is added, with w = mu * zz1, and the carry `cc` is kept.
unfoldable pub reduce_second : (p0 p1 mu : ℕ) → Limbs → Limbs × ℕ
reduce_second p0 p1 mu z =
    let w = wrapping_mul64 mu z.zz1 in
    let result₁ = mul128 p0 w in
    let hi₁ = hi64 result₁ in
    let lo₁ = lo64 result₁ in
    let result₂ = add128 z.zz1 lo₁ in
    let zz1 = lo64 result₂ in
    let cc₂ = hi64 result₂ in
    let result₃ = add128 hi₁ cc₂ in
    let carry₃ = lo64 result₃ in
    let result₄ = mul128 p1 w in
    let hi₄ = hi64 result₄ in
    let lo₄ = lo64 result₄ in
    let result₅ = add128 lo₄ carry₃ in
    let lo₅ = lo64 result₅ in
    let cc₅ = hi64 result₅ in
    let result₆ = add128 hi₄ cc₅ in
    let hi₆ = lo64 result₆ in
    let result₇ = add128 z.zz2 lo₅ in
    let zz2 = lo64 result₇ in
    let cc₇ = hi64 result₇ in
    let result₈ = add128 (add128 z.zz3 hi₆) cc₇ in
    let zz3 = lo64 result₈ in
    let cc₈ = hi64 result₈ in (record { zz0 = z.zz0; zz1 = zz1; zz2 = zz2; zz3 = zz3 }, cc₈)

-- "Final subtraction": p is taken off once if the value with its carry is p or more.
unfoldable pub final_subtraction : (p : ℕ) → Limbs → ℕ → ℕ
final_subtraction p z cc =
    let prod = bit_or z.zz2 (shl128 z.zz3 64) in
    let (s0, b0) = overflowing_sub prod p in
    let (_, b1) = overflowing_sub cc (bool_word b0) in
    let mask = wrapping_sub 0 (bool_word b1) in
    bit_or (bit_and prod mask) (bit_and s0 (complement mask))

module _ (fp : FieldParameters) where
  open fp use {p, mu, r2}

  unfoldable pub add : ℕ → ℕ → ℕ
  add x y =
      let (z, carry) = overflowing_add x y in
      let (s0, b0) = overflowing_sub z p in
      let (_, b1) = overflowing_sub (bool_word carry) (bool_word b0) in
      let m = wrapping_sub 0 (bool_word b1) in bit_or (bit_and z m) (bit_and s0 (complement m))

  unfoldable pub sub : ℕ → ℕ → ℕ
  sub x y =
      let (z0, b0) = overflowing_sub x y in
      let (_, b1) = overflowing_sub 0 (bool_word b0) in
      let m = wrapping_sub 0 (bool_word b1) in wrapping_add z0 (bit_and m p)

  unfoldable pub mul : ℕ → ℕ → ℕ
  unfolding product reduce_first reduce_second final_subtraction lo64 hi64
  mul x y =
      let z = product (lo64 x) (hi64 x) (lo64 y) (hi64 y) in
      let z' = reduce_first (lo64 p) (hi64 p) mu z in
      let (z'', cc) = reduce_second (lo64 p) (hi64 p) mu z' in final_subtraction p z'' cc

  unfoldable pub montgomery : ℕ → ℕ
  unfolding modp
  montgomery x = modp (mul x r2) p

  unfoldable pub residue : ℕ → ℕ
  unfolding modp
  residue x = modp (mul x 1) p

  unfoldable pub neg : ℕ → ℕ
  neg x = sub 0 x

  -- The body of the loop of `pow`, at bit `i` of the exponent.
  unfoldable pub pow_round : ℕ → ℕ → ℕ → ℕ → ℕ
  pow_round x exp i t =
      let t' = mul t t in if not (bit_and (exp / 2 ^ i) 1 == 0) then mul t' x else t'

  -- `for i in (0..n).rev()`
  unfoldable pub pow_loop : ℕ → ℕ → ℕ → ℕ → ℕ
  pow_loop x exp zero t = t
  pow_loop x exp (suc i) t = pow_loop x exp i (pow_round x exp i t)

  unfoldable pub pow : ℕ → ℕ → ℕ
  pow x exp = pow_loop x exp (128 - leading_zeros exp) (montgomery 1)

  unfoldable pub inv : ℕ → ℕ
  inv x = pow x (wrapping_sub p 2)
