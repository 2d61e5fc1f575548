-- ===== src/Common/Division.antt =====
-- Quotients and remainders by a variable.
use Prim.Native.Nat.{ℕ, ◌+◌, ◌*◌, ◌%◌, ◌^◌, ◌<◌}
use mathlib.Core.Path.{◌≡◌, ap, ◌∙◌}
use native.Mathlib.Nat.{mod-eq_of_lt, add-mul-mod_self_left, one-le-pow}

-- Uniqueness of the remainder.
pub mod_unique : (n m q r : ℕ) → n ≡ r + m * q → r < m → n % m ≡ r
mod_unique n m q r e h = ap (λ (t : ℕ). t % m) e ∙ add-mul-mod_self_left r m q ∙ mod-eq_of_lt h

pub pow_pos : (b n : ℕ) → 0 < b → 0 < b ^ n
pow_pos b n h = one-le-pow n b h
