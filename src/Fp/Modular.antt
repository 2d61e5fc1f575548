-- ===== src/Fp/Modular.antt =====
-- `add`, `sub`, `neg` and `modp` compute modulo p.
use libprio_rs.Common.{
  ℕ, ◌+◌, ◌-◌, ◌*◌, ◌%◌, ◌^◌, ◌<◌, ◌≡◌, arith, ltb, if◌then◌else◌, Bool-cases, inl, inr,
}
use libprio_rs.Common.{ltb→lt, mod_unique}
use native.Mathlib.Nat.{mod-eq_of_lt}
use libprio_rs.Common.Words.{select_mask, mask_word}
use libprio_rs.Fp.{FieldParameters, modp, add, sub}

-- `modp` takes p off once where it can.
pub modp_lem : (x p : ℕ) → x < 2 ^ 128 → p < 2 ^ 128 → modp x p ≡ (if ltb x p then x else x - p)
unfolding modp
modp_lem x p hx hp = rw (mask_word (ltb x p) p hp) (ground arith)

-- A remainder of a number below 2 * p.
pub mod_reduce : (n p : ℕ) → n < 2 * p → n % p ≡ (if ltb n p then n else n - p)
mod_reduce n p h = elim (Bool-cases (ltb n p)) [
  | inl below ↦ rw below (mod-eq_of_lt (ltb→lt n p below))
  | inr above ↦ rw above (mod_unique n p 1 (n - p) (ground arith) (ground arith))
]

-- `add` on reduced elements.
pub add_lem :
    (fp : FieldParameters) (x y : ℕ)
    → fp.p < 2 ^ 128
    → x < fp.p
    → y < fp.p
    → add fp x y ≡ (x + y) % fp.p
unfolding add
add_lem fp x y hp hx hy =
    rw
      (select_mask _ ((x + y) % 2 ^ 128) (((x + y) % 2 ^ 128 + 2 ^ 128 - fp.p) % 2 ^ 128)
        (omega arith) (omega arith))
      (rw (mod_reduce (x + y) fp.p (omega arith)) (ground arith))

pub sub_lem :
    (fp : FieldParameters) (x y : ℕ)
    → fp.p < 2 ^ 128
    → x < fp.p
    → y < fp.p
    → sub fp x y ≡ (x + fp.p - y) % fp.p
unfolding sub
sub_lem fp x y hp hx hy =
    rw (mask_word _ fp.p hp) (rw (mod_reduce (x + fp.p - y) fp.p (omega arith)) (ground arith))
