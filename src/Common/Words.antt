-- ===== src/Common/Words.antt =====
-- The machine words of the source: a `u64` or `u128` is a native number below 2 ^ 64 or 2 ^ 128,
-- and every operator of the source has its wrap-around written out.
use Prim.Native.Nat.{ℕ, ◌+◌, ◌-◌, ◌*◌, ◌%◌, ◌^◌, ◌<◌, bit_and, bit_or}
use mathlib.Core.Path.{◌≡◌, ◌∙◌}
use mathlib.Core.Bool.{Bool, true, false}
use native.Mathlib.Nat.{mod-eq_of_lt}
use libprio_rs.Common.Tests.{ltb, leb}
use libprio_rs.Common.Bits.{
  bit_and-ones, bit_and-zero, bit_or-zero, ones-bit_and, zero-bit_and, zero-bit_or,
}

abbrev pub word64 : ℕ
word64 = 2 ^ 64

abbrev pub word128 : ℕ
word128 = 2 ^ 128

-- `b as u128`
abbrev pub bool_word : Bool → ℕ
bool_word true = 1
bool_word false = 0

abbrev pub overflowing_add : ℕ → ℕ → ℕ × Bool
overflowing_add x y = ((x + y) % word128, leb word128 (x + y))

abbrev pub overflowing_sub : ℕ → ℕ → ℕ × Bool
overflowing_sub x y = ((x + word128 - y) % word128, ltb x y)

abbrev pub wrapping_add : ℕ → ℕ → ℕ
wrapping_add x y = (x + y) % word128

abbrev pub wrapping_sub : ℕ → ℕ → ℕ
wrapping_sub x y = (x + word128 - y) % word128

abbrev pub wrapping_mul64 : ℕ → ℕ → ℕ
wrapping_mul64 x y = x * y % word64

-- `!m` on `u128`
abbrev pub complement : ℕ → ℕ
complement m = word128 - 1 - m

-- `x + y`, `x * y` and `x << k` on `u128`
abbrev pub add128 : ℕ → ℕ → ℕ
add128 x y = (x + y) % word128

abbrev pub mul128 : ℕ → ℕ → ℕ
mul128 x y = x * y % word128

abbrev pub shl128 : ℕ → ℕ → ℕ
shl128 x k = x * 2 ^ k % word128

-- `(z & m) | (s & !m)` where `m` is all ones or zero.
pub select_mask :
    (b : Bool) (z s : ℕ)
    → z < word128
    → s < word128
    → bit_or
        (bit_and z (wrapping_sub 0 (bool_word b)))
        (bit_and s (complement (wrapping_sub 0 (bool_word b))))
      ≡ elim b [ true ↦ z | false ↦ s ]
select_mask true z s hz hs = rw (bit_and-ones 128 z, bit_and-zero, bit_or-zero) (mod-eq_of_lt hz)
select_mask false z s hz hs = rw (bit_and-ones 128 s, bit_and-zero, zero-bit_or) (mod-eq_of_lt hs)

-- `m & p` where `m` is all ones or zero.
pub mask_word :
    (b : Bool) (p : ℕ)
    → p < word128
    → bit_and (wrapping_sub 0 (bool_word b)) p ≡ elim b [ true ↦ p | false ↦ 0 ]
mask_word true p h = ones-bit_and 128 p ∙ mod-eq_of_lt h
mask_word false p h = zero-bit_and p

-- `usize` has 64 bits.
abbrev pub usize_word : ℕ
usize_word = 2 ^ 64

abbrev pub usize_sub : ℕ → ℕ → ℕ
usize_sub x y = (x + usize_word - y) % usize_word
