-- ===== src/Tests/Shares.antt =====
-- src/vdaf.rs on concrete inputs.
use libprio_rs.Common.{ℕ, ◌≡◌, ◌≢◌, refl, arith, length, List, [], ◌∷◌}
use libprio_rs.Outcome.{ok, err}
use libprio_rs.Field.{field32}
use libprio_rs.Field.Elementwise.{IsVector}
use libprio_rs.Vdaf.{accumulate, uncategorized, cannot_sum}
use libprio_rs.Vdaf.Aggregation.{accumulate_all, accumulate_all-perm}
use mathlib.Core.List.{Permᴰ}

abbrev one_way : List (List ℕ)
one_way = (4293918720 ∷ 1 ∷ []) ∷ (2 ∷ 3 ∷ []) ∷ []

abbrev other_way : List (List ℕ)
other_way = (2 ∷ 3 ∷ []) ∷ (4293918720 ∷ 1 ∷ []) ∷ []

accumulate_all-perm_example :
    (accumulate_all field32 (5 ∷ 5 ∷ []) one_way ≡ ok (6 ∷ 9 ∷ []))
    × (accumulate_all field32 (5 ∷ 5 ∷ []) other_way ≡ ok (6 ∷ 9 ∷ []))
    × IsVector field32 2 (6 ∷ 9 ∷ [])
    × ((share : List ℕ)
        → 2 ≢ length share
        → accumulate field32 (5 ∷ 5 ∷ []) share ≡ err (uncategorized (cannot_sum 2 (length share))))
accumulate_all-perm_example =
    accumulate_all-perm field32 (omega arith) 2 (5 ∷ 5 ∷ []) one_way other_way
      (Permᴰ.swap refl refl) (refl, (omega arith, (omega arith, tt)))
      ((refl, (omega arith, (omega arith, tt))), ((refl, (omega arith, (omega arith, tt))), tt))
