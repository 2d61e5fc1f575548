-- ===== src/Field/Sums.antt =====
-- Vectors added to one another: what the loops over shares in src/vdaf.rs and src/vdaf/prio3.rs
-- compute.
use libprio_rs.Common.{
  ℕ, zero, suc, ◌^◌, ◌<◌, ◌≡◌, refl, List, [], ◌∷◌, arith, length, All, replicate, length-replicate,
}
use libprio_rs.Fp.{add}
use libprio_rs.Field.{FieldType, add_each, sub_each}
use libprio_rs.Field.Elementwise.{
  IsVector, add_each-IsVector, add_each-sub_each, add_each_swap, add_reduced,
}
use mathlib.Core.Path.{ap₂}

-- `acc` with every vector added.
abbrev pub add_all : FieldType → List ℕ → List (List ℕ) → List ℕ
add_all f acc [] = acc
add_all f acc (xs ∷ rest) = add_all f (add_each f acc xs) rest

module _ (f : FieldType) (hp : f.fp.p < 2 ^ 128) (n : ℕ) where
  pub add_all-IsVector :
      (acc : List ℕ) (rest : List (List ℕ))
      → IsVector f n acc
      → All (IsVector f n) rest
      → IsVector f n (add_all f acc rest)
  add_all-IsVector acc [] ha h = ha
  add_all-IsVector acc (xs ∷ rest) ha (hx, h) =
      add_all-IsVector (add_each f acc xs) rest (add_each-IsVector f hp n acc xs ha hx) h

  pub add_each_exchange :
      (acc xs ys : List ℕ)
      → IsVector f n acc
      → IsVector f n xs
      → IsVector f n ys
      → add_each f (add_each f acc xs) ys ≡ add_each f (add_each f acc ys) xs
  add_each_exchange acc xs ys ha hx hy =
      add_each_swap f hp acc xs ys ha.1 hx.1 hy.1 (omega (arith, ha.0, hx.0))
        (omega (arith, ha.0, hy.0))

  -- A vector added first or last.
  pub add_all-add_each :
      (acc xs : List ℕ) (rest : List (List ℕ))
      → IsVector f n acc
      → IsVector f n xs
      → All (IsVector f n) rest
      → add_all f (add_each f acc xs) rest ≡ add_each f (add_all f acc rest) xs
  add_all-add_each acc xs [] ha hx h = refl
  add_all-add_each acc xs (ys ∷ rest) ha hx (hy, h) =
      rw (add_each_exchange acc xs ys ha hx hy)
        (add_all-add_each (add_each f acc ys) xs rest (add_each-IsVector f hp n acc ys ha hy) hx h)

  -- A share that was subtracted is added again.
  pub add_all-sub_each :
      (rest whole xs : List ℕ) (shares : List (List ℕ))
      → IsVector f n rest
      → IsVector f n whole
      → IsVector f n xs
      → All (IsVector f n) shares
      → add_all f rest shares ≡ sub_each f whole xs
      → add_all f rest (xs ∷ shares) ≡ whole
  add_all-sub_each rest whole xs shares hr hw hx h e =
      rw (add_all-add_each rest xs shares hr hx h, e)
        (add_each-sub_each f hp whole xs hw.1 hx.1 (omega (arith, hw.0, hx.0)))

-- The vector of zeros that the loops start from.
module _ (f : FieldType) (hp : f.fp.p < 2 ^ 128) (positive : 0 < f.fp.p) where
  zeros-lt : (n : ℕ) → All (λ x. x < f.fp.p) (replicate n 0)
  zeros-lt zero = tt
  zeros-lt (suc n) = (positive, zeros-lt n)

  pub zeros-IsVector : (n : ℕ) → IsVector f n (replicate n 0)
  zeros-IsVector n = (length-replicate n 0, zeros-lt n)

  zero_add : (x : ℕ) → x < f.fp.p → add f.fp 0 x ≡ x
  zero_add x h = rw (add_reduced f hp 0 x positive h) (ground arith)

  pub zeros-add_each :
      (xs : List ℕ) → All (λ x. x < f.fp.p) xs → add_each f (replicate (length xs) 0) xs ≡ xs
  unfolding add_each
  zeros-add_each [] h = refl
  zeros-add_each (x ∷ xs) (hx, h) =
      ap₂ (λ (t : ℕ) (u : List ℕ). t ∷ u) (zero_add x hx) (zeros-add_each xs h)
