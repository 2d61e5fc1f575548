-- ===== src/Poplar1/Hits.antt =====
-- What the output shares of a report of src/vdaf/poplar1.rs say: which prefixes its input has.
use libprio_rs.Common.{
  ℕ, zero, suc, ◌+◌, ◌%◌, ◌^◌, ◌≡◌, refl, List, [], ◌∷◌, length, All, map, ◌==◌, if◌then◌else◌,
  Bool-cases, inl, inr,
}
use mathlib.Core.Path.{ap₂}
use libprio_rs.Field.{FieldType, add_each}
use libprio_rs.Field.Elementwise.{IsVector}
use libprio_rs.Poplar1.{IdpfInput}
use libprio_rs.Poplar1.Points.{value_at, point}

-- Whether the node is a prefix of the input, as 1 or 0, and how many of the inputs have the prefix.
abbrev pub hit : IdpfInput → IdpfInput → ℕ
hit input node = if node.index == input.index % 2 ^ node.level then 1 else 0

abbrev pub having : List IdpfInput → IdpfInput → ℕ
having [] node = 0
having (input ∷ inputs) node = hit input node + having inputs node

abbrev pub word_of : ℕ → ℕ → ℕ
word_of unit zero = 0
word_of unit (suc n) = unit

-- The output shares of a report add up to 1 at the prefixes of its input, and to 0 elsewhere.
abbrev pub IsReport : FieldType → (unit : ℕ) → List IdpfInput → IdpfInput × List ℕ × List ℕ → Type 0
IsReport f unit nodes report =
    IsVector f (length nodes) report.1
    × IsVector f (length nodes) report.2
    × (add_each f report.1 report.2 ≡ map (λ node. word_of unit (hit report.0 node)) nodes)

-- The first values of the point function, on nodes of a level where the value is `unit`.
pub point-hit :
    (unit level : ℕ) (input : IdpfInput) (values : List (ℕ × ℕ)) (nodes : List IdpfInput)
    → (value_at values level).0 ≡ unit
    → All (λ node. node.level ≡ level) nodes
    → map (λ node. (point input values node).0) nodes
      ≡ map (λ node. word_of unit (hit input node)) nodes
point-hit unit level input values [] hu h = refl
point-hit unit level input values (node ∷ nodes) hu (e, h) =
    ap₂ (λ (t : ℕ) (ts : List ℕ). t ∷ ts) here (point-hit unit level input values nodes hu h)
  where
    here : (point input values node).0 ≡ word_of unit (hit input node)
    here = elim (Bool-cases (node.index == input.index % 2 ^ node.level)) [
      | inl same ↦ rw (same, e) hu
      | inr other ↦ rw other refl
    ]
