-- ===== src/Prio3/Totals.antt =====
-- Aggregation and collection in src/vdaf/prio3.rs: the sums, whoever adds first.
use libprio_rs.Common.{
  ℕ, ◌^◌, ◌<◌, ◌≡◌, refl, sym, ap, ◌∙◌, List, [], ◌∷◌, ◌++◌, arith, map, length, All, replicate,
  ==_self,
}
use libprio_rs.Outcome.{Outcome, ok, ◌>>=◌}
use libprio_rs.Fp.{add}
use libprio_rs.Field.{FieldType, add_each}
use libprio_rs.Field.Codec.{IsFieldType}
use libprio_rs.Field.Elementwise.{IsVector, add_reduced, add_each-IsVector}
use libprio_rs.Field.Sums.{
  add_all, add_all-IsVector, add_all-add_each, zeros-add_each, zeros-IsVector,
}
use libprio_rs.Vdaf.{VdafError, merge, sum}
use libprio_rs.Vdaf.Aggregation.{accumulate_all, accumulate_lem, accumulate_all-perm}
use libprio_rs.Prio3.{Prio3}
use libprio_rs.Prio3.Aggregate.{aggregate, merge_shares, unshard}
use mathlib.Core.List.{Permᴰ, flatten}
use mathlib.Core.Path.{ap₂}

-- `aggregate` by every aggregator, of its output shares.
abbrev pub aggregate_each :
    FieldType
    → {Measurement : Type 0} → Prio3 Measurement
    → List (List (List ℕ))
    → Outcome VdafError (List (List ℕ))
aggregate_each f self [] = ok []
aggregate_each f self (shares ∷ rest) = do
  agg ← aggregate f self shares
  aggs ← aggregate_each f self rest
  ok (agg ∷ aggs)

module _ (f : FieldType) (ok_f : IsFieldType f) (n : ℕ) where
  hp : f.fp.p < 2 ^ 128
  hp = ok_f.p_lt_word

  pub p_positive : 0 < f.fp.p
  p_positive = omega (arith, ok_f.parameters.r2_lt)

  add_comm : (x y : ℕ) → x < f.fp.p → y < f.fp.p → add f.fp x y ≡ add f.fp y x
  add_comm x y hx hy = rw (add_reduced f hp x y hx hy, add_reduced f hp y x hy hx) (ground arith)

  add_each_comm :
      (xs ys : List ℕ)
      → All (λ x. x < f.fp.p) xs
      → All (λ x. x < f.fp.p) ys
      → length xs ≡ length ys
      → add_each f xs ys ≡ add_each f ys xs
  unfolding add_each
  add_each_comm [] [] h k e = refl
  add_each_comm [] (y ∷ ys) h k e = absurd (omega arith)
  add_each_comm (x ∷ xs) [] h k e = absurd (omega arith)
  add_each_comm (x ∷ xs) (y ∷ ys) (hx, h) (hy, k) e =
      ap₂ (λ (t : ℕ) (u : List ℕ). t ∷ u) (add_comm x y hx hy)
        (add_each_comm xs ys h k (omega arith))

  add_all-append :
      (acc : List ℕ) (xs ys : List (List ℕ))
      → add_all f acc (xs ++ ys) ≡ add_all f (add_all f acc xs) ys
  add_all-append acc [] ys = refl
  add_all-append acc (x ∷ xs) ys = add_all-append (add_each f acc x) xs ys

  -- A sum that is added is its terms added.
  add_sum :
      (acc : List ℕ) (xs : List (List ℕ))
      → IsVector f n acc
      → All (IsVector f n) xs
      → add_each f acc (add_all f (replicate n 0) xs) ≡ add_all f acc xs
  add_sum acc xs ha h =
      let hz = zeros-IsVector f hp p_positive n in
      let hs = add_all-IsVector f hp n (replicate n 0) xs hz h in
      let start : add_each f (replicate n 0) acc ≡ acc =
        rw ha.0 at (zeros-add_each f hp p_positive acc ha.1) in
      add_each_comm acc (add_all f (replicate n 0) xs) ha.1 hs.1 (ha.0 ∙ sym hs.0)
      ∙ sym (add_all-add_each f hp n (replicate n 0) acc xs hz ha h)
      ∙ ap (λ (t : List ℕ). add_all f t xs) start

  add_sums :
      (acc : List ℕ) (groups : List (List (List ℕ)))
      → IsVector f n acc
      → All (All (IsVector f n)) groups
      → add_all f acc (map (add_all f (replicate n 0)) groups) ≡ add_all f acc (flatten groups)
  unfolding flatten
  add_sums acc [] ha h = refl
  add_sums acc (xs ∷ groups) ha (hx, h) =
      rw (add_all, map, add_sum acc xs ha hx, add_all-append acc xs (flatten groups))
        (add_sums (add_all f acc xs) groups (add_all-IsVector f hp n acc xs ha hx) h)

  pub accumulate_all_lem :
      (acc : List ℕ) (xs : List (List ℕ))
      → IsVector f n acc
      → All (IsVector f n) xs
      → accumulate_all f acc xs ≡ ok (add_all f acc xs)
  accumulate_all_lem acc [] ha h = refl
  accumulate_all_lem acc (x ∷ xs) ha (hx, h) =
      rw (accumulate_lem f hp n acc x ha hx)
        (accumulate_all_lem (add_each f acc x) xs (add_each-IsVector f hp n acc x ha hx) h)

  pub merge_shares_lem :
      (acc : List ℕ) (xs : List (List ℕ))
      → IsVector f n acc
      → All (IsVector f n) xs
      → merge_shares f acc xs ≡ ok (add_all f acc xs)
  unfolding merge_shares merge sum
  merge_shares_lem acc [] ha h = refl
  merge_shares_lem acc (x ∷ xs) ha (hx, h) =
      rw (ha.0, hx.0, ==_self n)
        (merge_shares_lem (add_each f acc x) xs (add_each-IsVector f hp n acc x ha hx) h)

  sums_whole :
      (groups : List (List (List ℕ)))
      → All (All (IsVector f n)) groups
      → All (IsVector f n) (map (add_all f (replicate n 0)) groups)
  sums_whole [] h = tt
  sums_whole (xs ∷ groups) (hx, h) = (
    add_all-IsVector f hp n (replicate n 0) xs (zeros-IsVector f hp p_positive n) hx,
    sums_whole groups h,
  )

  All-append :
      (xs ys : List (List ℕ))
      → All (IsVector f n) xs
      → All (IsVector f n) ys
      → All (IsVector f n) (xs ++ ys)
  All-append [] ys h k = k
  All-append (x ∷ xs) ys (hx, h) k = (hx, All-append xs ys h k)

  flatten_whole :
      (groups : List (List (List ℕ)))
      → All (All (IsVector f n)) groups
      → All (IsVector f n) (flatten groups)
  unfolding flatten
  flatten_whole [] h = tt
  flatten_whole (xs ∷ groups) (hx, h) = All-append xs (flatten groups) hx (flatten_whole groups h)

returned : {x y : List ℕ} → ◌≡◌ {A = Outcome VdafError (List ℕ)} (ok x) (ok y) → x ≡ y
returned e = cc e

module _ (f : FieldType) (ok_f : IsFieldType f) {Measurement : Type 0}
    (self : Prio3 Measurement) where
  open self use {typ}

  aggregate_each_lem :
      (groups : List (List (List ℕ)))
      → All (All (IsVector f typ.output_len)) groups
      → aggregate_each f self groups ≡ ok (map (add_all f (replicate typ.output_len 0)) groups)
  unfolding aggregate
  aggregate_each_lem [] h = refl
  aggregate_each_lem (xs ∷ groups) (hx, h) =
      let hz = zeros-IsVector f ok_f.p_lt_word (p_positive f ok_f typ.output_len) typ.output_len in
      rw
        (
          map,
          accumulate_all_lem f ok_f typ.output_len (replicate typ.output_len 0) xs hz hx,
          aggregate_each_lem groups h,
        )
        refl

  -- Whichever aggregator adds which output shares, in which order, collecting gives the same: where
  -- the output shares of the aggregators are those of the reports in any order, all of the output
  -- length, `aggregate` of every aggregator returns, and `unshard` of these aggregate shares is the
  -- result's `try_from` of the sum over the reports of the sums of their output shares.
  pub unshard-aggregate {ℓ} :
      {A : Type ℓ} (try_from : List ℕ → Outcome VdafError A)
      (aggregators reports : List (List (List ℕ)))
      → Permᴰ (flatten aggregators) (flatten reports)
      → All (All (IsVector f typ.output_len)) aggregators
      → All (All (IsVector f typ.output_len)) reports
      → (aggs : List (List ℕ)) × (aggregate_each f self aggregators ≡ ok aggs)
        × (unshard f self try_from aggs
            ≡ try_from (
                add_all f
                  (replicate typ.output_len 0)
                  (map (add_all f (replicate typ.output_len 0)) reports)))
  unfolding unshard
  unshard-aggregate try_from aggregators reports same_shares ha hr =
      let n = typ.output_len in
      let z : List ℕ = replicate n 0 in
      let hz = zeros-IsVector f ok_f.p_lt_word (p_positive f ok_f n) n in
      let fa = flatten_whole f ok_f n aggregators ha in
      let fr = flatten_whole f ok_f n reports hr in
      let (e, e', hv, refused) =
        accumulate_all-perm f ok_f.p_lt_word n z (flatten aggregators) (flatten reports) same_shares
          hz fa in
      let total : add_all f z (flatten aggregators) ≡ add_all f z (flatten reports) = returned (
        sym (accumulate_all_lem f ok_f n z (flatten aggregators) hz fa)
        ∙ e
        ∙ sym e'
        ∙ accumulate_all_lem f ok_f n z (flatten reports) hz fr) in
      (
        map (add_all f z) aggregators,
        aggregate_each_lem aggregators ha,
        rw
            (
              merge_shares_lem f ok_f n z (map (add_all f z) aggregators) hz
                  (sums_whole f ok_f n aggregators ha),
              add_sums f ok_f n z aggregators hz ha,
              add_sums f ok_f n z reports hz hr,
              total,
            )
            refl,
      )
