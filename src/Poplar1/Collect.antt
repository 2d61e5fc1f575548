-- ===== src/Poplar1/Collect.antt =====
-- src/vdaf/poplar1.rs: output shares summed, and the counts of the prefixes. A `BTreeMap` is the list
-- of its entries in the order of their keys.
use Prim.Native.Nat.{Ordering}
use libprio_rs.Common.{ℕ, ◌^◌, List, [], ◌∷◌, ltb, length, replicate}
use libprio_rs.Outcome.{Outcome, ok, ◌>>=◌, ◌>>◌, guard, map_err}
use libprio_rs.Field.{FieldType, into_integer}
use libprio_rs.Vdaf.{VdafError, uncategorized, aggregate_overflow}
use libprio_rs.Vdaf.Aggregation.{accumulate_all}
use libprio_rs.Prio3.Aggregate.{merge_shares}
use libprio_rs.Poplar1.{IdpfInput}
use libprio_rs.Poplar1.Input.{cmp}

-- `BTreeMap::insert`
unfoldable pub insert_count : IdpfInput → ℕ → List (IdpfInput × ℕ) → List (IdpfInput × ℕ)
insert_count node count [] = (node, count) ∷ []
insert_count node count ((key, old) ∷ agg) = elim (cmp node key) [
  | Ordering.lt ↦ (node, count) ∷ (key, old) ∷ agg
  | Ordering.eq ↦ (key, count) ∷ agg
  | Ordering.gt ↦ (key, old) ∷ insert_count node count agg
]

module _ (f : FieldType) where
  unfoldable pub aggregate : List IdpfInput → List (List ℕ) → Outcome VdafError (List ℕ)
  aggregate agg_param output_shares =
      accumulate_all f (replicate (length agg_param) 0) output_shares

  -- `count.try_into()` of the element's integer, a `u64`.
  unfoldable pub count_of : ℕ → Outcome VdafError ℕ
  count_of elem = do
    count ← map_err (λ e. absurd e) (into_integer f elem)
    guard (ltb count (2 ^ 64)) (uncategorized aggregate_overflow)
    ok count

  -- `for (prefix, count) in agg_param.iter().zip(agg_data.as_ref())`
  unfoldable pub count_loop :
      List IdpfInput → List ℕ → List (IdpfInput × ℕ) → Outcome VdafError (List (IdpfInput × ℕ))
  count_loop (node ∷ agg_param) (elem ∷ agg_data) agg = do
    count ← count_of elem
    count_loop agg_param agg_data (insert_count node count agg)
  count_loop [] agg_data agg = ok agg
  count_loop (node ∷ agg_param) [] agg = ok agg

  unfoldable pub unshard : List IdpfInput → List (List ℕ) → Outcome VdafError (List (IdpfInput × ℕ))
  unshard agg_param agg_shares = do
    agg_data ← merge_shares f (replicate (length agg_param) 0) agg_shares
    count_loop agg_param agg_data []
