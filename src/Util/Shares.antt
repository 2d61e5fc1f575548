-- ===== src/Util/Shares.antt =====
-- `reconstruct_shares` and its relation to `split_vector`.
use libprio_rs.Common.{
  ℕ, ◌^◌, ◌<◌, ◌≡◌, refl, sym, ap, ◌∙◌, List, [], ◌∷◌, some, none, arith, ◌==◌, true, Bool-cases,
  inl, inr, length, replicate, All, if◌then◌else◌,
}
use libprio_rs.Outcome.{Outcome, ok, ◌>>=◌}
use libprio_rs.Fp.Modular.{add_lem}
use libprio_rs.Field.{FieldType, split_vector, merge_vector}
use libprio_rs.Field.Elementwise.{IsVector}
use libprio_rs.Field.Vectors.{sums, merge_all, merge_vector-sums, split_vector-merge}
use libprio_rs.Util.{sum_into, reconstruct_shares}
use mathlib.Core.Path.{ap₂, subst}

one_share : (shares : List (List ℕ)) → length shares ≡ 1 → (s : List ℕ) × (shares ≡ s ∷ [])
one_share [] h = absurd (omega arith)
one_share (s ∷ []) h = (s, refl)
one_share (s ∷ t ∷ shares) h = absurd (omega arith)

module _ (f : FieldType) (hp : f.fp.p < 2 ^ 128) where
  open f use {fp}
  open fp use {p}

  sum_into-sums :
      (xs ys : List ℕ)
      → All (λ x. x < p) xs
      → All (λ x. x < p) ys
      → length xs ≡ length ys
      → sum_into f (replicate (length xs) 0) xs ys ≡ sums p xs ys
  unfolding sum_into
  sum_into-sums [] ys h k e = refl
  sum_into-sums (x ∷ xs) [] h k e = absurd (omega arith)
  sum_into-sums (x ∷ xs) (y ∷ ys) (hx, h) (hy, k) e =
      ap₂ (λ (t : ℕ) (u : List ℕ). t ∷ u) (add_lem fp x y hp hx hy)
        (sum_into-sums xs ys h k (omega arith))

  reconstruct_shares-sums :
      (xs ys : List ℕ)
      → All (λ x. x < p) xs
      → All (λ x. x < p) ys
      → reconstruct_shares f xs ys ≡ (if length xs == length ys then some (sums p xs ys) else none)
  unfolding reconstruct_shares
  reconstruct_shares-sums xs ys hx hy = elim (Bool-cases (length xs == length ys)) [
    | inl same ↦ rw same (ap some (sum_into-sums xs ys hx hy (ground arith)))
    | inr differ ↦ rw differ refl
  ]

  -- One other share, merged into the first.
  two_shares :
      (n : ℕ) (inp first second : List ℕ)
      → IsVector f n first
      → IsVector f n second
      → merge_all f first (second ∷ []) ≡ ok inp
      → reconstruct_shares f first second ≡ some inp
  two_shares n inp first second (e₁, h₁) (e₂, h₂) merged =
      let m = merge_vector-sums f hp first second h₁ h₂ in
      let same : (length first == length second) ≡ true = ground arith in
      let single : merge_vector f first second ≡ ok (sums p first second) = m ∙ rw same refl in
      let result : (merge_vector f first second >>= λ a. ok a) ≡ ok inp = merged in
      let equal : sums p first second ≡ inp = cc (rw single at result) in
      reconstruct_shares-sums first second h₁ h₂ ∙ rw same (ap some equal)

  -- Two shares of `split_vector` are put together by `reconstruct_shares`.
  pub reconstruct_shares-split_vector {ℓ} :
      {E : Type ℓ} (random : ℕ → Outcome E (List ℕ)) (draw : ℕ → List ℕ) (n : ℕ) (inp : List ℕ)
      → ((k : ℕ) → random k ≡ ok (draw k))
      → ((k : ℕ) → IsVector f n (draw k))
      → IsVector f n inp
      → (first second : List ℕ) × (split_vector f random inp 2 ≡ ok (first ∷ second ∷ []))
        × (reconstruct_shares f first second ≡ some inp)
  reconstruct_shares-split_vector random draw n inp h hd hi =
      let (first, shares, e, len, vs, merged) =
        split_vector-merge f hp random draw n 1 inp h hd hi in
      let (second, single) = one_share shares len in
      let e' : split_vector f random inp 2 ≡ ok (first ∷ second ∷ []) =
        e ∙ ap (λ (t : List (List ℕ)). ok (first ∷ t)) single in
      let merged' : merge_all f first (second ∷ []) ≡ ok inp =
        sym (ap (merge_all f first) single) ∙ merged in
      let vs' : All (IsVector f n) (first ∷ second ∷ []) =
        subst (λ (t : List (List ℕ)). All (IsVector f n) (first ∷ t)) single vs in
      (first, second, e', two_shares n inp first second vs'.0 vs'.1.0 merged')
