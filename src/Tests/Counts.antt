-- ===== src/Tests/Counts.antt =====
-- Two reports of src/vdaf/poplar1.rs and the counts of their prefixes.
use libprio_rs.Common.{ℕ, ◌≡◌, refl, arith, List, [], ◌∷◌, All, map}
use libprio_rs.Outcome.{ok}
use libprio_rs.Field.{field32, sub_each, add_each}
use libprio_rs.Field.Codec.{field32-IsFieldType}
use libprio_rs.Fp.{sub, add}
use libprio_rs.Poplar1.{IdpfInput}
use libprio_rs.Poplar1.Collect.{aggregate, unshard}
use libprio_rs.Poplar1.Counts.{entries, unshard-having}
use libprio_rs.Poplar1.Hits.{IsReport, having}
use libprio_rs.Tests.Poplar1.{unit, unit-Represents, input, node, nodes, nodes-IsOrdered}

-- The reports of one input of the bit 1 and one of the bit 0.
abbrev reports : List (IdpfInput × List ℕ × List ℕ)
reports =
    (input, sub_each field32 (0 ∷ unit ∷ []) (5 ∷ 5 ∷ []), 5 ∷ 5 ∷ [])
    ∷ (node, unit ∷ 0 ∷ [], 0 ∷ 0 ∷ [])
    ∷ []

reports-IsReport : All (IsReport field32 unit (node ∷ nodes)) reports
unfolding add_each add sub_each sub
reports-IsReport = (
  ((refl, (omega arith, (omega arith, tt))), (refl, (omega arith, (omega arith, tt))), refl),
  (((refl, (omega arith, (omega arith, tt))), (refl, (omega arith, (omega arith, tt))), refl), tt),
)

unshard-having_example :
    (first second : List ℕ) × (aggregate field32 (node ∷ nodes) (map (λ r. r.1) reports) ≡ ok first)
    × (aggregate field32 (node ∷ nodes) (map (λ r. r.2) reports) ≡ ok second)
    × (unshard field32 (node ∷ nodes) (first ∷ second ∷ [])
        ≡ ok (entries (having (map (λ r. r.0) reports)) (node ∷ nodes)))
unshard-having_example =
    unshard-having field32 field32-IsFieldType unit (node ∷ nodes) reports unit-Represents
      nodes-IsOrdered reports-IsReport (omega arith) (omega arith)
