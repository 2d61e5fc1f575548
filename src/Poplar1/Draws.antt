-- ===== src/Poplar1/Draws.antt =====
-- The elements of a generator of src/prng.rs as a list, from which src/vdaf/poplar1.rs skips and reads.
use libprio_rs.Common.{
  ℕ, zero, suc, ◌≤◌, ◌<◌, ◌≡◌, refl, ap, ◌∙◌, List, [], ◌∷◌, arith, length, drop,
}
use mathlib.Core.Path.{subst}
use libprio_rs.Outcome.{ok, >>=-eq-ok}
use libprio_rs.Field.{FieldType}
use libprio_rs.Prg.{Prg}
use libprio_rs.Prng.{Prng, get, take_elements}
use libprio_rs.Vdaf.{VdafError}
use libprio_rs.Poplar1.Prepare.{skip}
use libprio_rs.Poplar1.Tables.{at}

-- What stands behind two and three elements.
pub at-drop_two : (j : ℕ) (xs : List ℕ) → at (drop 2 xs) j ≡ at xs (suc (suc j))
at-drop_two j [] = refl
at-drop_two j (x ∷ []) = refl
at-drop_two j (x ∷ y ∷ xs) = refl

pub at-drop_three : (j : ℕ) (xs : List ℕ) → at (drop 3 xs) j ≡ at xs (suc (suc (suc j)))
at-drop_three j [] = refl
at-drop_three j (x ∷ []) = refl
at-drop_three j (x ∷ y ∷ []) = refl
at-drop_three j (x ∷ y ∷ z ∷ xs) = refl

drop_cons : (i : ℕ) (xs : List ℕ) → i < length xs → drop i xs ≡ at xs i ∷ drop (suc i) xs
drop_cons i [] h = absurd (omega arith)
drop_cons zero (x ∷ xs) h = refl
drop_cons (suc i) (x ∷ xs) h = drop_cons i xs (omega arith)

module _ (f : FieldType) {State Stream : Type 0} (prg : Prg State Stream) (fuel : ℕ) where
  -- The next elements of the generator are `xs`.
  abbrev pub Draws : Prng Stream → List ℕ → Type 0
  Draws s xs =
      (rest : Prng Stream) × (take_elements f prg {E = VdafError} fuel (length xs) s
        ≡ ok (xs, rest))

  pub Draws-get :
      (s : Prng Stream) (x : ℕ) (xs : List ℕ)
      → Draws s (x ∷ xs)
      → (s' : Prng Stream) × (get f prg {E = VdafError} fuel s ≡ ok (x, s')) × Draws s' xs
  unfolding take_elements
  Draws-get s x xs (rest, e) =
      let ((y, s'), got, e₁) = >>=-eq-ok (get f prg {E = VdafError} fuel s) _ e in
      let ((ys, s''), taken, last) =
        >>=-eq-ok (take_elements f prg {E = VdafError} fuel (length xs) s') _ e₁ in
      let same : y ≡ x = cc last in
      let tail : ys ≡ xs = cc last in
      let end : s'' ≡ rest = cc last in
      (
        s',
        got ∙ ap (λ (t : ℕ). ok (t, s')) same,
        (s'', taken ∙ ap (λ (t : List ℕ). ok (t, s'')) tail),
      )

  -- What is skipped.
  skip_take :
      (i : ℕ) (s : Prng Stream) (xs : List ℕ)
      → i ≤ length xs
      → Draws s xs
      → (ys : List ℕ) × (s' : Prng Stream) × (take_elements f prg {E = VdafError} fuel i s
          ≡ ok (ys, s'))
        × Draws s' (drop i xs)
  unfolding take_elements
  skip_take zero s xs h d = ([], s, refl, d)
  skip_take (suc i) s [] h d = absurd (omega arith)
  skip_take (suc i) s (x ∷ xs) h d =
      let (s', got, d') = Draws-get s x xs d in
      let (ys, s'', taken, d'') = skip_take i s' xs (omega arith) d' in
      (x ∷ ys, s'', rw (got, taken) refl, d'')

  pub skip_lem :
      (i : ℕ) (s : Prng Stream) (xs : List ℕ)
      → i ≤ length xs
      → Draws s xs
      → (s' : Prng Stream) × (skip f prg fuel {E = VdafError} i s ≡ ok s') × Draws s' (drop i xs)
  unfolding skip
  skip_lem i s xs h d = let (ys, s', taken, d') = skip_take i s xs h d in (s', rw taken refl, d')

  -- One read in front of the rest.
  pub read :
      (i : ℕ) (s : Prng Stream) (xs : List ℕ)
      → i < length xs
      → Draws s (drop i xs)
      → (s' : Prng Stream) × (get f prg {E = VdafError} fuel s ≡ ok (at xs i, s'))
        × Draws s' (drop (suc i) xs)
  read i s xs h d =
      Draws-get s (at xs i) (drop (suc i) xs)
        (subst (λ (t : List ℕ). Draws s t) (drop_cons i xs h) d)
