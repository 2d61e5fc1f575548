-- ===== src/Common/Digits.antt =====
-- Numbers as lists of bytes, most significant first.
use Prim.Native.Nat.{ℕ, zero, suc, ◌+◌, ◌*◌, ◌/◌, ◌%◌, ◌^◌, ◌<◌}
use mathlib.Core.Path.{◌≡◌, refl, sym, ap}
use mathlib.Core.List.{List, [], ◌∷◌}
use native.Mathlib.Omega.{arith}
use native.Mathlib.Nat.{div-add-mod, mod-lt, mul-le-mul_right, pow-suc}
use libprio_rs.Common.Lists.{length, All}
use libprio_rs.Common.Division.{mod_unique, pow_pos}

-- The last `n` bytes of `v`.
unfoldable pub be_bytes : ℕ → ℕ → List ℕ
be_bytes zero v = []
be_bytes (suc n) v = (v / 256 ^ n % 256) ∷ be_bytes n v

unfoldable pub from_be : List ℕ → ℕ
from_be [] = 0
from_be (b ∷ bs) = b * 256 ^ length bs + from_be bs

pub length-be_bytes : (n v : ℕ) → length (be_bytes n v) ≡ n
unfolding be_bytes
length-be_bytes zero v = refl
length-be_bytes (suc n) v = ap suc (length-be_bytes n v)

pub be_bytes-IsByte : (n v : ℕ) → All (λ b. b < 256) (be_bytes n v)
unfolding be_bytes
be_bytes-IsByte zero v = tt
be_bytes-IsByte (suc n) v = (omega arith, be_bytes-IsByte n v)

-- One more digit in front.
pub split_digit : (v m : ℕ) → 0 < m → v / m % 256 * m + v % m ≡ v % (m * 256)
split_digit v m h = sym (
    mod_unique v (m * 256) (v / m / 256) (v / m % 256 * m + v % m)
      (omega (arith, div-add-mod v m, ap (λ (t : ℕ). t * m) (div-add-mod (v / m) 256)))
      (omega (arith, mod-lt v h, mul-le-mul_right {m = v / m % 256} {n = 255} m (omega arith))))

pub from_be-be_bytes : (n v : ℕ) → from_be (be_bytes n v) ≡ v % 256 ^ n
unfolding be_bytes from_be
from_be-be_bytes zero v = omega arith
from_be-be_bytes (suc n) v =
    rw (length-be_bytes, from_be-be_bytes n v, pow-suc)
      (split_digit v (256 ^ n) (pow_pos 256 n (omega arith)))
