-- ===== src/Common/Bits.antt =====
-- `&`, `|` at variables: the law of the lowest digit, masks of ones, and disjoint sums.
use Prim.Native.Nat.{
  ℕ, zero, suc, ◌+◌, ◌-◌, ◌*◌, ◌/◌, ◌%◌, ◌^◌, ◌≤◌, ◌<◌, min, max, bit_and, bit_or, digits, bitwise,
  bit_and-bitwise, bit_or-bitwise,
}
use mathlib.Core.Path.{◌≡◌, refl, sym, ap, ◌∙◌}
use native.Mathlib.Omega.{arith}
use native.Mathlib.Nat.{div-add-mod, pow-suc, mod-lt}
use libprio_rs.Common.Division.{mod_unique, pow_pos}

-- Fuel that the recursion on digits does not use changes nothing.
module _ (keep : ℕ → ℕ) (op : ℕ → ℕ → ℕ) where
  one_more : (fuel x y : ℕ) → x ≤ fuel → digits keep op (suc fuel) x y ≡ digits keep op fuel x y
  one_more zero zero y h = refl
  one_more zero (suc x) y h = absurd (omega arith)
  one_more (suc fuel) zero y h = refl
  one_more (suc fuel) (suc x) y h = rw (one_more fuel (suc x / 2) (y / 2) (omega arith))

  spare_fuel :
      (spare all fuel x y : ℕ)
      → all ≡ fuel + spare
      → x ≤ fuel
      → digits keep op all x y ≡ digits keep op fuel x y
  spare_fuel zero all fuel x y e h = ap (λ (t : ℕ). digits keep op t x y) (e ∙ omega arith)
  spare_fuel (suc spare) zero fuel x y e h = absurd (omega arith)
  spare_fuel (suc spare) (suc all) fuel x y e h =
      one_more all x y (omega arith) ∙ spare_fuel spare all fuel x y (omega arith) h

  pub lowest_digit :
      (x y : ℕ)
      → bitwise keep op (suc x) y ≡ op (suc x % 2) (y % 2) + 2 * bitwise keep op (suc x / 2) (y / 2)
  lowest_digit x y =
      let half = suc x / 2 in
      omega (arith, spare_fuel (x - half) x half half (y / 2) (omega arith) (omega arith))

pub bit_and_digit : (x y : ℕ) → bit_and x y ≡ bit_and (x / 2) (y / 2) * 2 + min (x % 2) (y % 2)
bit_and_digit zero y = simp bit_and-bitwise (omega arith)
bit_and_digit (suc x) y =
    let e = lowest_digit (λ t. 0) min x y in simp bit_and-bitwise (omega arith)

pub bit_or_digit : (x y : ℕ) → bit_or x y ≡ bit_or (x / 2) (y / 2) * 2 + max (x % 2) (y % 2)
bit_or_digit zero y = simp bit_or-bitwise (omega arith)
bit_or_digit (suc x) y = let e = lowest_digit (λ t. t) max x y in simp bit_or-bitwise (omega arith)

pub mod_double : (x m : ℕ) → 0 < m → x / 2 % m * 2 + x % 2 ≡ x % (m * 2)
mod_double x m h = sym (
    mod_unique x (m * 2) (x / 2 / m) (x / 2 % m * 2 + x % 2)
      (omega (arith, ap (λ (t : ℕ). t * 2) (div-add-mod (x / 2) m)))
      (omega (arith, mod-lt (x / 2) h)))

and_digits-zero : (n a : ℕ) → digits (λ y. 0) min n a 0 ≡ 0
and_digits-zero zero a = refl
and_digits-zero (suc n) zero = refl
and_digits-zero (suc n) (suc a) = omega (arith, and_digits-zero n (suc a / 2))

pub bit_and-zero : (x : ℕ) → bit_and x 0 ≡ 0
bit_and-zero x = bit_and-bitwise x 0 ∙ and_digits-zero x x

or_digits-zero : (n a : ℕ) → a ≤ n → digits (λ y. y) max n a 0 ≡ a
or_digits-zero zero zero h = refl
or_digits-zero zero (suc a) h = absurd (omega arith)
or_digits-zero (suc n) zero h = refl
or_digits-zero (suc n) (suc a) h = omega (arith, or_digits-zero n (suc a / 2) (omega arith))

pub bit_or-zero : (x : ℕ) → bit_or x 0 ≡ x
bit_or-zero x = bit_or-bitwise x 0 ∙ or_digits-zero x x (omega arith)

half_ones : (k : ℕ) → (2 ^ suc k - 1) / 2 ≡ 2 ^ k - 1
half_ones k = omega (arith, pow-suc 2 k, pow_pos 2 k (omega arith))

odd_ones : (k : ℕ) → (2 ^ suc k - 1) % 2 ≡ 1
odd_ones k = omega (arith, pow-suc 2 k, pow_pos 2 k (omega arith))

-- A mask of `k` ones keeps the lowest `k` bits.
pub bit_and-ones : (k x : ℕ) → bit_and x (2 ^ k - 1) ≡ x % 2 ^ k
bit_and-ones zero x = bit_and-zero x ∙ omega arith
bit_and-ones (suc k) x =
    bit_and_digit x (2 ^ suc k - 1)
    ∙ rw (half_ones k, odd_ones k, bit_and-ones k (x / 2), pow-suc)
        (omega (arith, mod_double x (2 ^ k) (pow_pos 2 k (omega arith))))

pub zero-bit_or : (y : ℕ) → bit_or 0 y ≡ y
zero-bit_or y = simp bit_or-bitwise refl

-- Numbers with no common bit: `|` is addition.
pub bit_or-shifted : (k x y : ℕ) → x < 2 ^ k → bit_or x (y * 2 ^ k) ≡ x + y * 2 ^ k
bit_or-shifted zero x y h =
    ap (λ (t : ℕ). bit_or t (y * 1)) {x = x} {y = 0} (omega arith)
    ∙ zero-bit_or (y * 1)
    ∙ omega arith
bit_or-shifted (suc k) x y h = omega (
  arith,
  bit_or_digit x (y * 2 ^ suc k),
  pow-suc 2 k,
  ap (λ (t : ℕ). bit_or (x / 2) t) halves,
  bit_or-shifted k (x / 2) y (omega (arith, pow-suc 2 k)),
  ap (λ (t : ℕ). y * t) (pow-suc 2 k),
)
  where
    halves : y * 2 ^ suc k / 2 ≡ y * 2 ^ k
    halves = omega (arith, ap (λ (t : ℕ). y * t) (pow-suc 2 k))

pub zero-bit_and : (y : ℕ) → bit_and 0 y ≡ 0
zero-bit_and y = simp bit_and-bitwise refl

-- The same with the mask on the left.
pub ones-bit_and : (k x : ℕ) → bit_and (2 ^ k - 1) x ≡ x % 2 ^ k
ones-bit_and zero x = zero-bit_and x ∙ omega arith
ones-bit_and (suc k) x =
    bit_and_digit (2 ^ suc k - 1) x
    ∙ rw (half_ones k, odd_ones k, ones-bit_and k (x / 2), pow-suc)
        (omega (arith, mod_double x (2 ^ k) (pow_pos 2 k (omega arith))))
