-- ===== src/Prg/Equality.antt =====
-- The comparison of seeds in src/vdaf/prg.rs.
use Prim.Native.Nat.{bit_or, bit_xor}
use libprio_rs.Common.{
  ℕ, zero, suc, ◌+◌, ◌/◌, ◌≤◌, ◌≡◌, refl, sym, ap, ◌∙◌, List, [], ◌∷◌, arith, length, true, ==_iff,
}
use libprio_rs.Common.Bits.{bit_or_digit}
use libprio_rs.Common.Xor.{bit_xor_self, bit_xor_cancel}
use libprio_rs.Prg.{differences, seed_eq}
use mathlib.Core.Path.{ap₂, subst}
use mathlib.Core.Logic.{◌↔◌}

no_bits_within : (n x y : ℕ) → x ≤ n → y ≤ n → bit_or x y ≡ 0 → (x ≡ 0) × (y ≡ 0)
no_bits_within zero x y hx hy e = (omega arith, omega arith)
no_bits_within (suc n) x y hx hy e =
    let d = bit_or_digit x y in
    let (a, b) = no_bits_within n (x / 2) (y / 2) (omega arith) (omega arith) (omega arith) in
    (omega arith, omega arith)

no_bits : (x y : ℕ) → bit_or x y ≡ 0 → (x ≡ 0) × (y ≡ 0)
no_bits x y e = no_bits_within (x + y) x y (omega arith) (omega arith) e

zero_xor : (x : ℕ) → bit_xor 0 x ≡ x
zero_xor x = ap (λ (t : ℕ). bit_xor t x) (sym (bit_xor_self x)) ∙ bit_xor_cancel x x

same_bits : (x y : ℕ) → bit_xor x y ≡ 0 → x ≡ y
same_bits x y e = sym (zero_xor x) ∙ ap (λ (t : ℕ). bit_xor t x) (sym e) ∙ bit_xor_cancel x y

no_differences :
    (xs ys : List ℕ) (r : ℕ) → length xs ≡ length ys → differences r xs ys ≡ 0 → (r ≡ 0) × (xs ≡ ys)
unfolding differences
no_differences [] [] r len e = (e, refl)
no_differences [] (y ∷ ys) r len e = absurd (omega arith)
no_differences (x ∷ xs) [] r len e = absurd (omega arith)
no_differences (x ∷ xs) (y ∷ ys) r len e =
    let (here, rest) = no_differences xs ys (bit_or r (bit_xor x y)) (omega arith) e in
    let (a, b) = no_bits r (bit_xor x y) here in
    (a, ap₂ (λ (t : ℕ) (u : List ℕ). t ∷ u) (same_bits x y b) rest)

differences_self : (xs : List ℕ) → differences 0 xs xs ≡ 0
unfolding differences
differences_self [] = refl
differences_self (x ∷ xs) = rw (bit_xor_self x) (differences_self xs)

pub seed_eq_self : (xs : List ℕ) → seed_eq xs xs ≡ true
unfolding seed_eq
seed_eq_self xs = rw (differences_self xs) refl

-- Seeds of one length compare equal exactly where they are equal.
pub seed_eq_iff : (xs ys : List ℕ) → length xs ≡ length ys → (seed_eq xs ys ≡ true) ↔ (xs ≡ ys)
unfolding seed_eq
seed_eq_iff xs ys len = (
  (λ e. (no_differences xs ys 0 len ((==_iff (differences 0 xs ys) 0).0 e)).1),
  (λ e. subst (λ (t : List ℕ). seed_eq xs t ≡ true) e (seed_eq_self xs)),
)
