-- ===== src/Prio3/Aggregate.antt =====
-- src/vdaf/prio3.rs: output shares summed, and aggregate shares combined into the result.
use libprio_rs.Common.{ℕ, ◌^◌, List, [], ◌∷◌, ltb, length, replicate}
use libprio_rs.Outcome.{Outcome, ok, err, ◌>>=◌, ◌>>◌, guard, map_err}
use libprio_rs.Field.{FieldType, into_integer}
use libprio_rs.Vdaf.{VdafError, uncategorized, unexpected_aggregate_length, result_too_large, merge}
use libprio_rs.Vdaf.Aggregation.{accumulate_all}
use libprio_rs.Prio3.{Prio3}

module _ (f : FieldType) where
  -- `F::Integer::from(elem).try_into()`, a `u64`.
  unfoldable pub into_u64 : ℕ → Outcome VdafError ℕ
  into_u64 elem = do
    out ← map_err (λ e. absurd e) (into_integer f elem)
    guard (ltb out (2 ^ 64)) (uncategorized result_too_large)
    ok out

  -- `Prio3Result::try_from`
  unfoldable pub result_try_from : List ℕ → Outcome VdafError ℕ
  result_try_from (x ∷ []) = into_u64 x
  result_try_from [] = err (uncategorized (unexpected_aggregate_length 0))
  result_try_from (x ∷ y ∷ xs) =
      err (uncategorized (unexpected_aggregate_length (length (x ∷ y ∷ xs))))

  -- `Prio3ResultVec::try_from`
  unfoldable pub result_vec_try_from : List ℕ → Outcome VdafError (List ℕ)
  result_vec_try_from [] = ok []
  result_vec_try_from (elem ∷ rest) = do
    out ← into_u64 elem
    outs ← result_vec_try_from rest
    ok (out ∷ outs)

  -- `merge` of one aggregate share after the other.
  unfoldable pub merge_shares : List ℕ → List (List ℕ) → Outcome VdafError (List ℕ)
  merge_shares agg [] = ok agg
  merge_shares agg (share ∷ shares) = do agg' ← merge f agg share; merge_shares agg' shares

  module _ {Measurement : Type 0} (self : Prio3 Measurement) where
    unfoldable pub aggregate : List (List ℕ) → Outcome VdafError (List ℕ)
    aggregate output_shares = accumulate_all f (replicate self.typ.output_len 0) output_shares

    -- With the `try_from` of the result's type.
    unfoldable pub unshard {ℓ} :
        {A : Type ℓ} → (List ℕ → Outcome VdafError A) → List (List ℕ) → Outcome VdafError A
    unshard try_from agg_shares = do
      agg ← merge_shares (replicate self.typ.output_len 0) agg_shares
      try_from agg
