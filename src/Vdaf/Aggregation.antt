-- ===== src/Vdaf/Aggregation.antt =====
-- Output shares accumulated into an aggregate share.
use libprio_rs.Common.{
  ℕ, ◌^◌, ◌<◌, ◌≡◌, ◌≢◌, refl, sym, ◌∙◌, List, [], ◌∷◌, arith, ==_self, ◌==◌, All, length,
  Bool-cases, inl, inr,
}
use libprio_rs.Outcome.{Outcome, ok, err, ◌>>=◌}
use libprio_rs.Field.{FieldType, add_each}
use libprio_rs.Field.Elementwise.{IsVector, add_each-IsVector, add_each_swap}
use libprio_rs.Field.Vectors.{sums, sums-add_each}
use libprio_rs.Vdaf.{VdafError, uncategorized, cannot_sum, sum, accumulate}
use mathlib.Core.List.{Permᴰ}
use mathlib.Core.Path.{subst}

-- `accumulate` of one output share after the other.
abbrev pub accumulate_all : FieldType → List ℕ → List (List ℕ) → Outcome VdafError (List ℕ)
accumulate_all f agg [] = ok agg
accumulate_all f agg (share ∷ shares) = do
  agg' ← accumulate f agg share
  accumulate_all f agg' shares

-- The sums modulo p at each place, of one vector after the other.
abbrev pub sums_all : ℕ → List ℕ → List (List ℕ) → List ℕ
sums_all p agg [] = agg
sums_all p agg (s ∷ shares) = sums_all p (sums p agg s) shares

module _ (f : FieldType) (hp : f.fp.p < 2 ^ 128) (n : ℕ) where
  pub accumulate_lem :
      (agg share : List ℕ)
      → IsVector f n agg
      → IsVector f n share
      → accumulate f agg share ≡ ok (add_each f agg share)
  unfolding accumulate sum
  accumulate_lem agg share (e, _) (e', _) = rw (e, e', ==_self n) refl

  pub All-perm :
      (xs ys : List (List ℕ)) → Permᴰ xs ys → All (IsVector f n) xs → All (IsVector f n) ys
  All-perm xs ys Permᴰ.nil h = h
  All-perm xs ys (Permᴰ.cons e d) (hx, h) = (subst (IsVector f n) e hx, All-perm _ _ d h)
  All-perm xs ys (Permᴰ.swap e₁ e₂) (hx, (hy, h)) =
      (subst (IsVector f n) e₂ hy, (subst (IsVector f n) e₁ hx, h))
  All-perm xs ys (Permᴰ.trans d₁ d₂) h = All-perm _ _ d₂ (All-perm _ _ d₁ h)

  accumulate_all-total :
      (agg : List ℕ) (shares : List (List ℕ))
      → IsVector f n agg
      → All (IsVector f n) shares
      → (r : List ℕ) × (accumulate_all f agg shares ≡ ok r) × IsVector f n r
  accumulate_all-total agg [] ha h = (agg, refl, ha)
  accumulate_all-total agg (s ∷ shares) ha (hs, h) =
      let (r, e, hr) =
        accumulate_all-total (add_each f agg s) shares (add_each-IsVector f hp n agg s ha hs) h in
      (r, rw (accumulate_lem agg s ha hs) e, hr)

  same_order :
      (xs ys : List (List ℕ))
      → Permᴰ xs ys
      → (agg : List ℕ) → IsVector f n agg
      → All (IsVector f n) xs
      → accumulate_all f agg xs ≡ accumulate_all f agg ys
  same_order xs ys Permᴰ.nil agg ha h = refl
  same_order (x ∷ xs) (y ∷ ys) (Permᴰ.cons e d) agg ha (hx, h) =
      rw (← e, accumulate_lem agg x ha hx)
        (same_order xs ys d (add_each f agg x) (add_each-IsVector f hp n agg x ha hx) h)
  same_order (x ∷ y ∷ xs) (y' ∷ x' ∷ ys) (Permᴰ.swap e₁ e₂) agg ha (hx, (hy, h)) =
      rw
        (
          ← e₁,
          ← e₂,
          accumulate_lem agg x ha hx,
          accumulate_lem agg y ha hy,
          accumulate_lem (add_each f agg x) y (add_each-IsVector f hp n agg x ha hx) hy,
          accumulate_lem (add_each f agg y) x (add_each-IsVector f hp n agg y ha hy) hx,
          add_each_swap f hp agg x y (ha.1) (hx.1) (hy.1) (omega (arith, ha.0, hx.0))
              (omega (arith, ha.0, hy.0)),
        )
        refl
  same_order xs ys (Permᴰ.trans d₁ d₂) agg ha h =
      same_order xs _ d₁ agg ha h ∙ same_order _ ys d₂ agg ha (All-perm _ _ d₁ h)

  accumulate_all_sums :
      (agg : List ℕ) (shares : List (List ℕ))
      → IsVector f n agg
      → All (IsVector f n) shares
      → accumulate_all f agg shares ≡ ok (sums_all f.fp.p agg shares)
  accumulate_all_sums agg [] ha h = refl
  accumulate_all_sums agg (s ∷ shares) ha (hs, h) =
      let e = sums-add_each f hp agg s ha.1 hs.1 (ha.0 ∙ sym hs.0) in
      let whole : IsVector f n (sums f.fp.p agg s) =
        subst (IsVector f n) e (add_each-IsVector f hp n agg s ha hs) in
      rw (accumulate_lem agg s ha hs, e) (accumulate_all_sums (sums f.fp.p agg s) shares whole h)

  accumulate_refused :
      (agg share : List ℕ)
      → length agg ≢ length share
      → accumulate f agg share ≡ err (uncategorized (cannot_sum (length agg) (length share)))
  unfolding accumulate sum
  accumulate_refused agg share differ = elim (Bool-cases (length agg == length share)) [
    | inl same ↦ absurd (differ (ground arith))
    | inr other ↦ rw other refl
  ]

  -- Output shares of the aggregate's length are accumulated without an error, into the sums modulo p
  -- at each place, in whatever order they come; the sums are reduced elements. A share of another
  -- length is an error.
  pub accumulate_all-perm :
      (agg : List ℕ) (xs ys : List (List ℕ))
      → Permᴰ xs ys
      → IsVector f n agg
      → All (IsVector f n) xs
      → (accumulate_all f agg xs ≡ ok (sums_all f.fp.p agg xs))
        × (accumulate_all f agg ys ≡ ok (sums_all f.fp.p agg xs))
        × IsVector f n (sums_all f.fp.p agg xs)
        × ((share : List ℕ)
            → length agg ≢ length share
            → accumulate f agg share ≡ err (uncategorized (cannot_sum (length agg) (length share))))
  accumulate_all-perm agg xs ys d ha h =
      let e = accumulate_all_sums agg xs ha h in
      let (r, e', hr) = accumulate_all-total agg xs ha h in
      let same : ok r ≡ ok (sums_all f.fp.p agg xs) = sym e' ∙ e in
      (
        e,
        sym (same_order xs ys d agg ha h) ∙ e,
        subst (IsVector f n) (cc same) hr,
        λ share differ. accumulate_refused agg share differ,
      )
