-- ===== src/Poplar1/Correlation.antt =====
-- The correlated randomness of src/vdaf/poplar1.rs: what `shard` pushes for the leader, and what the two
-- aggregators find at a level.
use libprio_rs.Common.{
  ℕ, zero, suc, ◌+◌, ◌*◌, ◌≤◌, ◌<◌, ◌≡◌, refl, ap, List, [], ◌∷◌, arith, length, drop, length-drop,
  lt→ltb,
}
use libprio_rs.Common.Words.{usize_word}
use mathlib.Core.Path.{ap₂}
use libprio_rs.Outcome.{ok}
use libprio_rs.Field.{FieldType, plus, minus, times}
use libprio_rs.Prg.{Prg}
use libprio_rs.Prng.{Prng}
use libprio_rs.Vdaf.{VdafError, leader, helper}
use libprio_rs.Poplar1.Draws.{Draws, read, skip_lem, at-drop_two, at-drop_three}
use libprio_rs.Poplar1.Points.{value_at}
use libprio_rs.Poplar1.Prepare.{blind, next_shares}
use libprio_rs.Poplar1.Shard.{prng_of, get_sum, correlate}
use libprio_rs.Poplar1.Tables.{at, index-at}

module _ (f : FieldType) where
  -- A sum of blinds, and A and B of a level.
  abbrev pub blind_sum : List ℕ → List ℕ → ℕ → ℕ
  blind_sum xs ys i = plus f (at xs i) (at ys i)

  abbrev pub a_of : (k a : ℕ) → ℕ
  a_of k a = minus f k (plus f a a)

  abbrev pub b_of : (k a b c : ℕ) → ℕ
  b_of k a b c = plus f (minus f (plus f (times f a a) b) (times f a k)) c

  -- What `shard` pushes, from the elements of the three generators.
  abbrev pub pushes : List (ℕ × ℕ) → (xs ys hides : List ℕ) → List ℕ
  pushes [] xs ys hides = []
  pushes (v ∷ values) xs ys hides =
      minus f (a_of (v.1) (blind_sum xs ys 0)) (at hides 0)
      ∷ minus f (b_of (v.1) (blind_sum xs ys 0) (blind_sum xs ys 1) (blind_sum xs ys 2))
          (at hides 1)
      ∷ pushes values (drop 3 xs) (drop 3 ys) (drop 2 hides)

  pub at-pushes :
      (values : List (ℕ × ℕ)) (xs ys hides : List ℕ) (l : ℕ)
      → l < length values
      → (at (pushes values xs ys hides) (2 * l)
          ≡ minus f (a_of (value_at values l).1 (blind_sum xs ys (3 * l))) (at hides (2 * l)))
        × (at (pushes values xs ys hides) (2 * l + 1)
            ≡ minus f
                (b_of
                  (value_at values l).1
                  (blind_sum xs ys (3 * l))
                  (blind_sum xs ys (3 * l + 1))
                  (blind_sum xs ys (3 * l + 2)))
                (at hides (2 * l + 1)))
  at-pushes [] xs ys hides l h = absurd (omega arith)
  at-pushes (v ∷ values) xs ys hides zero h = (refl, refl)
  at-pushes (v ∷ values) xs ys hides (suc l) h =
      let (first, second) =
        at-pushes values (drop 3 xs) (drop 3 ys) (drop 2 hides) l (omega arith) in
      let n2 : 2 * suc l ≡ suc (suc (2 * l)) = omega arith in
      let n2' : 2 * suc l + 1 ≡ suc (suc (2 * l + 1)) = omega arith in
      let n3 : 3 * suc l ≡ suc (suc (suc (3 * l))) = omega arith in
      let n3' : 3 * suc l + 1 ≡ suc (suc (suc (3 * l + 1))) = omega arith in
      let n3'' : 3 * suc l + 2 ≡ suc (suc (suc (3 * l + 2))) = omega arith in
      rw (n2', n2, n3', n3'', n3)
        (
          rw (at-drop_three (3 * l) xs, at-drop_three (3 * l) ys, at-drop_two (2 * l) hides) at
              first,
          rw
              (
                at-drop_three (3 * l) xs,
                at-drop_three (3 * l) ys,
                at-drop_three (3 * l + 1) xs,
                at-drop_three (3 * l + 1) ys,
                at-drop_three (3 * l + 2) xs,
                at-drop_three (3 * l + 2) ys,
                at-drop_two (2 * l + 1) hides,
              )
              at second,
        )

  pub length-pushes :
      (values : List (ℕ × ℕ)) (xs ys hides : List ℕ)
      → length (pushes values xs ys hides) ≡ 2 * length values
  length-pushes [] xs ys hides = omega arith
  length-pushes (v ∷ values) xs ys hides =
      omega (arith, length-pushes values (drop 3 xs) (drop 3 ys) (drop 2 hides))

module _ (f : FieldType) {State Stream : Type 0} (prg : Prg State Stream) (fuel : ℕ) where
  get_sum_lem :
      (i : ℕ) (s t : Prng Stream) (xs ys : List ℕ)
      → i < length xs
      → i < length ys
      → Draws f prg fuel s (drop i xs)
      → Draws f prg fuel t (drop i ys)
      → (s' t' : Prng Stream) × (get_sum f prg fuel {E = VdafError} s t
          ≡ ok (blind_sum f xs ys i, s', t'))
        × Draws f prg fuel s' (drop (suc i) xs)
        × Draws f prg fuel t' (drop (suc i) ys)
  unfolding get_sum
  get_sum_lem i s t xs ys hx hy ds dt =
      let (s', gs, ds') = read f prg fuel i s xs hx ds in
      let (t', gt, dt') = read f prg fuel i t ys hy dt in (s', t', rw (gs, gt) refl, ds', dt')

  -- Where the generators give enough elements, the loop returns.
  pub correlate_lem :
      (values : List (ℕ × ℕ)) (s t u : Prng Stream) (xs ys hides : List ℕ)
      → 3 * length values ≤ length xs
      → 3 * length values ≤ length ys
      → 2 * length values ≤ length hides
      → Draws f prg fuel s xs
      → Draws f prg fuel t ys
      → Draws f prg fuel u hides
      → correlate f prg fuel {E = VdafError} values s t u ≡ ok (pushes f values xs ys hides)
  unfolding correlate
  correlate_lem [] s t u xs ys hides hx hy hh ds dt du = refl
  correlate_lem (v ∷ values) s t u xs ys hides hx hy hh ds dt du =
      let (s₁, t₁, e₁, ds₁, dt₁) = get_sum_lem 0 s t xs ys (omega arith) (omega arith) ds dt in
      let (s₂, t₂, e₂, ds₂, dt₂) = get_sum_lem 1 s₁ t₁ xs ys (omega arith) (omega arith) ds₁ dt₁ in
      let (s₃, t₃, e₃, ds₃, dt₃) = get_sum_lem 2 s₂ t₂ xs ys (omega arith) (omega arith) ds₂ dt₂ in
      let (u₁, g₁, du₁) = read f prg fuel 0 u hides (omega arith) du in
      let (u₂, g₂, du₂) = read f prg fuel 1 u₁ hides (omega arith) du₁ in
      let rest =
        correlate_lem values s₃ t₃ u₂ (drop 3 xs) (drop 3 ys) (drop 2 hides)
          (omega (arith, length-drop 3 xs)) (omega (arith, length-drop 3 ys))
          (omega (arith, length-drop 2 hides)) ds₃ dt₃ du₂ in
      rw (e₁, e₂, e₃, g₁, g₂, rest) refl

  -- The blinds of a level, from the generator's elements.
  pub blind_lem :
      (level : ℕ) (seed xs : List ℕ) (z0 z1 z2 : ℕ)
      → level < 64
      → 3 * level + 2 < length xs
      → Draws f prg fuel (prng_of f prg fuel seed []) xs
      → blind f prg fuel {E = VdafError} level seed (z0, z1, z2)
        ≡ ok (
          plus f z0 (at xs (3 * level)),
          plus f z1 (at xs (3 * level + 1)),
          plus f z2 (at xs (3 * level + 2)),
        )
  unfolding blind
  blind_lem level seed xs z0 z1 z2 small h d =
      let n = 3 * level in
      let (s, skipped, ds) =
        skip_lem f prg fuel n (prng_of f prg fuel seed []) xs (omega arith) d in
      let (s₁, g₁, d₁) = read f prg fuel n s xs (omega arith) ds in
      let (s₂, g₂, d₂) = read f prg fuel (suc n) s₁ xs (omega arith) d₁ in
      let (s₃, g₃, d₃) = read f prg fuel (suc (suc n)) s₂ xs (omega arith) d₂ in
      let e₁ : suc n ≡ n + 1 = omega arith in
      let e₂ : suc (suc n) ≡ n + 2 = omega arith in
      rw (lt→ltb n usize_word (omega arith), skipped, g₁, g₂, g₃)
        (ap
          (λ (t : ℕ × ℕ).
            ok (plus f z0 (at xs n), plus f z1 (at xs (t.0)), plus f z2 (at xs (t.1))))
          (ap₂ (λ (a b : ℕ). (a, b)) e₁ e₂))

  -- The shares of A and B of a level, the leader's from its list and the helper's from its seed.
  pub leader_next_lem :
      (level : ℕ) (xs : List ℕ)
      → level < 64
      → 2 * level + 1 < length xs
      → next_shares f prg fuel {E = VdafError} level (leader xs)
        ≡ ok (at xs (2 * level), at xs (2 * level + 1))
  unfolding next_shares
  leader_next_lem level xs small h =
      rw
        (
          lt→ltb (2 * level) usize_word (omega arith),
          index-at xs (2 * level) (omega arith),
          lt→ltb (2 * level + 1) usize_word (omega arith),
          index-at xs (2 * level + 1) h,
        )
        refl

  pub helper_next_lem :
      (level : ℕ) (seed xs : List ℕ)
      → level < 64
      → 2 * level + 1 < length xs
      → Draws f prg fuel (prng_of f prg fuel seed []) xs
      → next_shares f prg fuel {E = VdafError} level (helper seed)
        ≡ ok (at xs (2 * level), at xs (2 * level + 1))
  unfolding next_shares
  helper_next_lem level seed xs small h d =
      let n = 2 * level in
      let (s, skipped, ds) =
        skip_lem f prg fuel n (prng_of f prg fuel seed []) xs (omega arith) d in
      let (s₁, g₁, d₁) = read f prg fuel n s xs (omega arith) ds in
      let (s₂, g₂, d₂) = read f prg fuel (suc n) s₁ xs (omega arith) d₁ in
      let e : suc n ≡ n + 1 = omega arith in
      rw (lt→ltb n usize_word (omega arith), skipped, g₁, g₂)
        (ap (λ (t : ℕ). ok (at xs n, at xs t)) e)
