-- ===== src/Tests/Types.antt =====
-- src/flp/types.rs on concrete inputs.
use libprio_rs.Common.{ℕ, ◌^◌, ◌≤◌, ◌<◌, ◌≡◌, refl, arith, List, [], ◌∷◌}
use libprio_rs.Outcome.{ok, err}
use libprio_rs.Field.{field64, one, into_integer}
use libprio_rs.Fp.{residue, mul}
use libprio_rs.Field.Codec.{field64-IsFieldType}
use libprio_rs.Field.Elementwise.{IsVector}
use libprio_rs.Flp.{encode_error}
use libprio_rs.Flp.Types.{Sum, sum_new, sum_encode, sum_truncate}
use libprio_rs.Flp.SumRoundTrip.{sum-round_trip}

one_of_field64 : one field64 ≡ ok 18446744065119617025
unfolding one
one_of_field64 = refl

integer_of_one : into_integer field64 18446744065119617025 ≡ ok 1
unfolding into_integer residue mul
integer_of_one = refl

sum-round_trip_example :
    (self : Sum) × (sum_new field64 8 ≡ ok self)
    × ((summand : ℕ)
        → summand < 2 ^ 8
        → (input : List ℕ) × (d : ℕ) × (sum_encode field64 self summand ≡ ok input)
          × IsVector field64 8 input
          × (sum_truncate field64 self input ≡ ok (d ∷ []))
          × (into_integer field64 d ≡ ok summand))
    × ((summand : ℕ) → 2 ^ 8 ≤ summand → sum_encode field64 self summand ≡ err encode_error)
sum-round_trip_example =
    sum-round_trip field64 field64-IsFieldType 8 (omega arith) (omega arith) 18446744065119617025
      one_of_field64 integer_of_one
