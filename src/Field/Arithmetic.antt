-- ===== src/Field/Arithmetic.antt =====
-- The operators of field elements in src/field.rs, by the integers that elements stand for.
use Prim.Native.Nat.{min}
use libprio_rs.Common.{
  ℕ, suc, ◌+◌, ◌-◌, ◌*◌, ◌%◌, ◌^◌, ◌≤◌, ◌<◌, ◌≡◌, refl, sym, ap, ◌∙◌, arith, lt→ltb,
  get_elem?-total, some, ◌==◌, ==_self, Bool-cases, inl, inr, length,
}
use libprio_rs.Common.Congruence.{Congruent, congr_mul}
use libprio_rs.Outcome.{ok}
use libprio_rs.Fp.{mul, inv, pow, montgomery, residue}
use libprio_rs.Fp.Element.{
  Represents, mul-Represents, montgomery_reduced, residue-lt, montgomery-residue,
  residue-montgomery, Represents-unique,
}
use libprio_rs.Fp.Power.{inv-Represents}
use libprio_rs.Field.{FieldType, eq, eq_integer, from_integer, into_integer, div, root}
use libprio_rs.Fp.Roots.{IsRoots, root_order}
use native.Mathlib.Nat.{mul_assoc}
use libprio_rs.Field.Codec.{IsFieldType}

module _ (f : FieldType) (ok_f : IsFieldType f) where
  open f use {fp}
  open fp use {p}

  -- `eq` compares reduced elements as words, although it compares their residues.
  pub eq-words : (x y : ℕ) → x < p → y < p → eq f x y ≡ (x == y)
  unfolding eq
  eq-words x y hx hy = elim (Bool-cases (x == y)) [
    | inl same ↦ let e : x ≡ y = ground arith in rw (e, ==_self (residue fp y), ==_self y) refl
    | inr differ ↦ elim (Bool-cases (residue fp x == residue fp y)) [
      | inl e ↦
          let back : x ≡ y =
            sym (montgomery-residue fp ok_f.parameters x hx)
            ∙ ap (montgomery fp) {x = residue fp x} {y = residue fp y} (ground arith)
            ∙ montgomery-residue fp ok_f.parameters y hy in
          absurd (ground arith)
      | inr e ↦ rw (e, differ) refl
    ]
  ]

  -- The comparison with an integer below p is that of the element with the integer's element.
  eq_integer-words : (x n : ℕ) → x < p → n < p → eq_integer f x n ≡ (x == from_integer f n)
  unfolding eq_integer from_integer
  eq_integer-words x n hx hn =
      let back = residue-montgomery fp ok_f.parameters n hn in
      let below = (montgomery_reduced fp ok_f.parameters n hn).reduced in
      let e : eq f x (montgomery fp n) ≡ (residue fp x == n) = unfold eq in rw back refl in
      sym e ∙ eq-words x (montgomery fp n) hx below

  -- The conversions from and to integers are inverse to each other, and neither panics: an integer
  -- below p becomes an element that stands for it, and an element gives back an integer below p.
  pub integer-round_trip :
      (n x : ℕ)
      → n < p
      → x < p
      → Represents fp (from_integer f n) n
        × (into_integer f (from_integer f n) ≡ ok n)
        × (into_integer f x ≡ ok (residue fp x))
        × (from_integer f (residue fp x) ≡ x)
  unfolding from_integer into_integer
  integer-round_trip n x hn hx =
      let back = residue-montgomery fp ok_f.parameters n hn in
      let below = residue-lt fp ok_f.parameters x hx in
      (
        montgomery_reduced fp ok_f.parameters n hn,
        rw (back, lt→ltb n (2 ^ f.int_bits) (omega (arith, ok_f.p_lt_int))) refl,
        rw (lt→ltb (residue fp x) (2 ^ f.int_bits) (omega (arith, ok_f.p_lt_int, below))) refl,
        montgomery-residue fp ok_f.parameters x hx,
      )

  -- `div` is the inverse of `*` at an element that stands for an integer a with
  -- a ^ (p - 2) * a = 1 modulo p, which is Fermat's theorem where p is a prime and a is not 0.
  pub div-mul :
      (x y a b : ℕ)
      → 2 ≤ p
      → Represents fp x a
      → Represents fp y b
      → Congruent p (a ^ (p - 2) * a) 1
      → mul fp (div f y x) x ≡ y
  unfolding div
  div-mul x y a b hp rx ry fermat =
      let ok = ok_f.parameters in
      let i = inv-Represents fp ok x a hp rx in
      let quotient = mul-Represents fp ok y (inv fp x) b (a ^ (p - 2)) ry i in
      let back = mul-Represents fp ok (mul fp y (inv fp x)) x (b * a ^ (p - 2)) a quotient rx in
      Represents-unique fp ok _ y _ b back ry (
        ap (λ (t : ℕ). t % p) {x = b * a ^ (p - 2) * a} {y = b * (a ^ (p - 2) * a)}
          (mul_assoc b _ a)
        ∙ congr_mul p b b _ 1 refl fermat
        ∙ ap (λ (t : ℕ). t % p) {x = b * 1} {y = b} (omega arith))

  -- `root (suc k)` is defined up to the table's length and `num_roots`, and it is a principal root
  -- of unity of order 2 ^ suc k: raised to that power it is 1, and raised to half of it it is -1.
  pub root-order :
      (k : ℕ)
      → IsRoots fp
      → suc k < length fp.roots
      → suc k ≤ fp.num_roots
      → suc k < 128
      → (x : ℕ) × (root f (suc k) ≡ some x)
        × Represents fp (pow fp x (2 ^ suc k)) 1
        × Represents fp (pow fp x (2 ^ k)) (p - 1)
  unfolding root
  root-order k r h₁ h₂ h₃ =
      let (x, e) = get_elem?-total fp.roots (suc k) h₁ in
      let (whole, half) = root_order fp ok_f.parameters r (suc k) x h₃ e in
      (
        x,
        rw (lt→ltb (suc k) (min (length fp.roots) (fp.num_roots + 1)) (omega arith)) e,
        whole,
        half k refl,
      )
