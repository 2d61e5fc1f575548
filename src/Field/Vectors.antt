-- ===== src/Field/Vectors.antt =====
-- Additive secret sharing in src/field.rs: `merge_vector` and `split_vector`.
use libprio_rs.Common.{
  ℕ, zero, suc, ◌+◌, ◌%◌, ◌^◌, ◌<◌, ◌≡◌, refl, ap, List, [], ◌∷◌, arith, length, All, ◌==◌, ==_self,
  Bool-cases, inl, inr, if◌then◌else◌,
}
use libprio_rs.Outcome.{Outcome, ok, err, ◌>>=◌, >>=-eq-ok}
use libprio_rs.Codec.{FieldError, input_size_mismatch}
use libprio_rs.Fp.Modular.{add_lem}
use libprio_rs.Field.{FieldType, add_each, sub_each, merge_vector, split_loop, split_vector}
use mathlib.Core.Path.{ap₂, subst}
use libprio_rs.Field.Elementwise.{
  IsVector, add_each-IsVector, sub_each-IsVector, add_each-sub_each, add_each_swap,
}

-- Every share is merged into the accumulator, one after the other.
abbrev pub merge_all : FieldType → List ℕ → List (List ℕ) → Outcome FieldError (List ℕ)
merge_all f accumulator [] = ok accumulator
merge_all f accumulator (share ∷ shares) = do
  accumulator' ← merge_vector f accumulator share
  merge_all f accumulator' shares

-- The sums modulo p at each place of two lists.
abbrev pub sums : ℕ → List ℕ → List ℕ → List ℕ
sums p [] ys = []
sums p (x ∷ xs) [] = []
sums p (x ∷ xs) (y ∷ ys) = ((x + y) % p) ∷ sums p xs ys

module _ (f : FieldType) (hp : f.fp.p < 2 ^ 128) where
  open f use {fp}
  open fp use {p}

  pub merge_lem :
      (n : ℕ) (xs ys : List ℕ)
      → IsVector f n xs
      → IsVector f n ys
      → merge_vector f xs ys ≡ ok (add_each f xs ys)
  unfolding merge_vector
  merge_lem n xs ys (e, _) (e', _) = rw (e, e', ==_self n) refl

  -- Merging commutes with adding a further share to the accumulator.
  merge_all-add_each :
      (n : ℕ) (acc s : List ℕ) (shares : List (List ℕ)) (r : List ℕ)
      → IsVector f n acc
      → IsVector f n s
      → All (IsVector f n) shares
      → merge_all f acc shares ≡ ok r
      → merge_all f (add_each f acc s) shares ≡ ok (add_each f r s)
  merge_all-add_each n acc s [] r ha hs h e = ap (λ (t : List ℕ). ok (add_each f t s)) (cc e)
  merge_all-add_each n acc s (t ∷ shares) r ha hs (ht, h) e =
      let first = merge_lem n acc t ha ht in
      let moved = merge_lem n (add_each f acc s) t (add_each-IsVector f hp n acc s ha hs) ht in
      let swapped =
        add_each_swap f hp acc s t (ha.1) (hs.1) (ht.1) (omega (arith, ha.0, hs.0))
          (omega (arith, ha.0, ht.0)) in
      let e' : merge_all f (add_each f acc t) shares ≡ ok r = rw first at e in
      rw (moved, swapped)
        (merge_all-add_each n (add_each f acc t) s shares r (add_each-IsVector f hp n acc t ha ht)
          hs h e')

  split_loop_lem {ℓ} :
      {E : Type ℓ} (random : ℕ → Outcome E (List ℕ)) (n k count : ℕ) (inp first : List ℕ)
      (shares : List (List ℕ))
      → ((k : ℕ) (share : List ℕ) → random k ≡ ok share → IsVector f n share)
      → IsVector f n inp
      → split_loop f random k count inp ≡ ok (first, shares)
      → (merge_all f first shares ≡ ok inp)
        × IsVector f n first
        × All (IsVector f n) shares
        × (length shares ≡ count)
  unfolding split_loop
  split_loop_lem random n k zero inp first shares hr hi e =
      let e₁ : inp ≡ first = cc e in
      let e₂ : [] ≡ shares = cc e in rw (← e₁, ← e₂) (refl, hi, tt, refl)
  split_loop_lem random n k (suc count) inp first shares hr hi e =
      let (share, drawn, rest) = >>=-eq-ok (random k) _ e in
      let ((first', shares'), looped, last) =
        >>=-eq-ok (split_loop f random (suc k) count (sub_each f inp share)) _ rest in
      let hs = hr k share drawn in
      let hsub = sub_each-IsVector f hp n inp share hi hs in
      let (merged, hf, hall, len) =
        split_loop_lem random n (suc k) count (sub_each f inp share) first' shares' hr hsub
          looped in
      let e₁ : first' ≡ first = cc last in
      let e₂ : share ∷ shares' ≡ shares = cc last in
      let m = merge_lem n first' share hf hs in
      let back = add_each-sub_each f hp inp share (hi.1) (hs.1) (omega (arith, hi.0, hs.0)) in
      rw (← e₁, ← e₂)
        (
          rw (m, merge_all-add_each n first' share shares' _ hf hs hall merged, back) refl,
          hf,
          (hs, hall),
          ap suc len,
        )

  split_loop_total {ℓ} :
      {E : Type ℓ} (random : ℕ → Outcome E (List ℕ)) (draw : ℕ → List ℕ) (k count : ℕ)
      (inp : List ℕ)
      → ((k : ℕ) → random k ≡ ok (draw k))
      → (first : List ℕ) × (shares : List (List ℕ)) × (split_loop f random k count inp
          ≡ ok (first, shares))
  unfolding split_loop
  split_loop_total random draw k zero inp h = (inp, [], refl)
  split_loop_total random draw k (suc count) inp h =
      let (first, shares, e) =
        split_loop_total random draw (suc k) count (sub_each f inp (draw k)) h in
      (first, draw k ∷ shares, rw (h k, e) refl)

  -- `split_vector` shares a vector of reduced elements: where the random vectors are drawn, it
  -- returns as many shares as asked for, at least one, each a vector of the input's length, and
  -- merging the others into the first with `merge_vector` gives back the input.
  pub split_vector-merge {ℓ} :
      {E : Type ℓ} (random : ℕ → Outcome E (List ℕ)) (draw : ℕ → List ℕ) (n count : ℕ)
      (inp : List ℕ)
      → ((k : ℕ) → random k ≡ ok (draw k))
      → ((k : ℕ) → IsVector f n (draw k))
      → IsVector f n inp
      → (first : List ℕ) × (shares : List (List ℕ)) × (split_vector f random inp (suc count)
          ≡ ok (first ∷ shares))
        × (length shares ≡ count)
        × All (IsVector f n) (first ∷ shares)
        × (merge_all f first shares ≡ ok inp)
  unfolding split_vector
  split_vector-merge random draw n count inp h hd hi =
      let (first, shares, e) = split_loop_total random draw 0 count inp h in
      let drawn : (k : ℕ) (share : List ℕ) → random k ≡ ok share → IsVector f n share = λ k share q.
        let drawn : random k ≡ ok (draw k) = h k in
        let same : draw k ≡ share = cc in subst (IsVector f n) same (hd k) in
      let (merged, hf, hall, len) = split_loop_lem random n 0 count inp first shares drawn hi e in
      (first, shares, rw e refl, len, (hf, hall), merged)

  pub sums-add_each :
      (xs ys : List ℕ)
      → All (λ x. x < p) xs
      → All (λ x. x < p) ys
      → length xs ≡ length ys
      → add_each f xs ys ≡ sums p xs ys
  unfolding add_each
  sums-add_each [] [] h k e = refl
  sums-add_each [] (y ∷ ys) h k e = absurd (omega arith)
  sums-add_each (x ∷ xs) [] h k e = absurd (omega arith)
  sums-add_each (x ∷ xs) (y ∷ ys) (hx, h) (hy, k) e =
      ap₂ (λ (t : ℕ) (u : List ℕ). t ∷ u) (add_lem fp x y hp hx hy)
        (sums-add_each xs ys h k (omega arith))

  -- `merge_vector` on reduced elements is addition modulo p at each place where the lengths agree,
  -- and an error where they do not.
  pub merge_vector-sums :
      (xs ys : List ℕ)
      → All (λ x. x < p) xs
      → All (λ x. x < p) ys
      → merge_vector f xs ys
        ≡ (if length xs == length ys then ok (sums p xs ys) else err input_size_mismatch)
  unfolding merge_vector
  merge_vector-sums xs ys hx hy = elim (Bool-cases (length xs == length ys)) [
    | inl same ↦ rw same (ap ok (sums-add_each xs ys hx hy (ground arith)))
    | inr differ ↦ rw differ refl
  ]
