-- ===== src/Field/Elementwise.antt =====
-- Reduced vectors of field elements, added and subtracted at each place.
use libprio_rs.Common.{
  ℕ, suc, ◌+◌, ◌-◌, ◌^◌, ◌<◌, ◌≡◌, refl, ap, ◌∙◌, List, [], ◌∷◌, arith, length, All, ltb,
  if◌then◌else◌,
}
use libprio_rs.Fp.{add, sub}
use libprio_rs.Fp.Modular.{mod_reduce, add_lem, sub_lem}
use libprio_rs.Field.{FieldType, add_each, sub_each}
use mathlib.Core.Path.{ap₂}

-- A vector of `n` reduced elements.
abbrev pub IsVector : FieldType → ℕ → List ℕ → Type 0
IsVector f n xs = (length xs ≡ n) × All (λ x. x < f.fp.p) xs

-- The elements' laws that sharing uses, of reduced words.
module _ (f : FieldType) (hp : f.fp.p < 2 ^ 128) where
  open f use {fp}
  open fp use {p}

  pub add_reduced :
      (x y : ℕ) → x < p → y < p → add fp x y ≡ (if ltb (x + y) p then x + y else x + y - p)
  add_reduced x y hx hy = add_lem fp x y hp hx hy ∙ mod_reduce (x + y) p (omega arith)

  sub_reduced :
      (x y : ℕ)
      → x < p
      → y < p
      → sub fp x y ≡ (if ltb (x + p - y) p then x + p - y else x + p - y - p)
  sub_reduced x y hx hy = sub_lem fp x y hp hx hy ∙ mod_reduce (x + p - y) p (omega arith)

  sub-lt : (x y : ℕ) → x < p → y < p → sub fp x y < p
  sub-lt x y hx hy = rw (sub_reduced x y hx hy) (ground arith)

  add-sub : (x a : ℕ) → x < p → a < p → add fp (sub fp x a) a ≡ x
  add-sub x a hx ha =
      let e = sub_reduced x a hx ha in
      rw (add_reduced (sub fp x a) a (sub-lt x a hx ha) ha) (ground arith)

  -- Adding in either order.
  add_swap : (x a b : ℕ) → x < p → a < p → b < p → add fp (add fp x a) b ≡ add fp (add fp x b) a
  add_swap x a b hx ha hb =
      let e = add_reduced x a hx ha in
      let e' = add_reduced x b hx hb in
      let la : add fp x a < p = rw e (ground arith) in
      let lb : add fp x b < p = rw e' (ground arith) in
      rw (add_reduced (add fp x a) b la hb, add_reduced (add fp x b) a lb ha) (ground arith)

  pub add-lt : (x a : ℕ) → x < p → a < p → add fp x a < p
  add-lt x a hx ha = rw (add_reduced x a hx ha) (ground arith)

  pub length-add_each : (xs ys : List ℕ) → length (add_each f xs ys) ≡ length xs
  unfolding add_each
  length-add_each [] ys = refl
  length-add_each (x ∷ xs) [] = refl
  length-add_each (x ∷ xs) (y ∷ ys) = ap suc (length-add_each xs ys)

  pub add_each-lt :
      (xs ys : List ℕ)
      → All (λ x. x < p) xs
      → All (λ x. x < p) ys
      → All (λ x. x < p) (add_each f xs ys)
  unfolding add_each
  add_each-lt [] ys h k = tt
  add_each-lt (x ∷ xs) [] h k = h
  add_each-lt (x ∷ xs) (y ∷ ys) (hx, h) (hy, k) = (add-lt x y hx hy, add_each-lt xs ys h k)

  pub add_each-IsVector :
      (n : ℕ) (xs ys : List ℕ) → IsVector f n xs → IsVector f n ys → IsVector f n (add_each f xs ys)
  add_each-IsVector n xs ys (e, h) (e', k) = (length-add_each xs ys ∙ e, add_each-lt xs ys h k)

  pub length-sub_each : (xs ys : List ℕ) → length (sub_each f xs ys) ≡ length xs
  unfolding sub_each
  length-sub_each [] ys = refl
  length-sub_each (x ∷ xs) [] = refl
  length-sub_each (x ∷ xs) (y ∷ ys) = ap suc (length-sub_each xs ys)

  pub sub_each-lt :
      (xs ys : List ℕ)
      → All (λ x. x < p) xs
      → All (λ x. x < p) ys
      → All (λ x. x < p) (sub_each f xs ys)
  unfolding sub_each
  sub_each-lt [] ys h k = tt
  sub_each-lt (x ∷ xs) [] h k = h
  sub_each-lt (x ∷ xs) (y ∷ ys) (hx, h) (hy, k) = (sub-lt x y hx hy, sub_each-lt xs ys h k)

  pub sub_each-IsVector :
      (n : ℕ) (xs ys : List ℕ) → IsVector f n xs → IsVector f n ys → IsVector f n (sub_each f xs ys)
  sub_each-IsVector n xs ys (e, h) (e', k) = (length-sub_each xs ys ∙ e, sub_each-lt xs ys h k)

  pub add_each-sub_each :
      (xs ys : List ℕ)
      → All (λ x. x < p) xs
      → All (λ x. x < p) ys
      → length xs ≡ length ys
      → add_each f (sub_each f xs ys) ys ≡ xs
  unfolding add_each sub_each
  add_each-sub_each [] ys h k e = refl
  add_each-sub_each (x ∷ xs) [] h k e = absurd (omega arith)
  add_each-sub_each (x ∷ xs) (y ∷ ys) (hx, h) (hy, k) e =
      ap₂ (λ (t : ℕ) (u : List ℕ). t ∷ u) (add-sub x y hx hy)
        (add_each-sub_each xs ys h k (omega arith))

  pub add_each_swap :
      (xs ys zs : List ℕ)
      → All (λ x. x < p) xs
      → All (λ x. x < p) ys
      → All (λ x. x < p) zs
      → length xs ≡ length ys
      → length xs ≡ length zs
      → add_each f (add_each f xs ys) zs ≡ add_each f (add_each f xs zs) ys
  unfolding add_each
  add_each_swap [] ys zs h k l e e' = refl
  add_each_swap (x ∷ xs) [] zs h k l e e' = absurd (omega arith)
  add_each_swap (x ∷ xs) (y ∷ ys) [] h k l e e' = absurd (omega arith)
  add_each_swap (x ∷ xs) (y ∷ ys) (z ∷ zs) (hx, h) (hy, k) (hz, l) e e' =
      ap₂ (λ (t : ℕ) (u : List ℕ). t ∷ u) (add_swap x y z hx hy hz)
        (add_each_swap xs ys zs h k l (omega arith) (omega arith))
