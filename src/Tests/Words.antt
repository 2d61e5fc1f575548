-- ===== src/Tests/Words.antt =====
-- The arithmetic of src/fp.rs and src/field.rs on concrete elements.
use libprio_rs.Common.{
  ℕ, suc, ◌+◌, ◌-◌, ◌*◌, ◌%◌, ◌^◌, ◌≤◌, ◌<◌, ◌≡◌, refl, arith, ◌==◌, List, [], ◌∷◌, some, All,
  if◌then◌else◌, length,
}
use libprio_rs.Outcome.{Outcome, ok, err}
use libprio_rs.Codec.{FieldError, input_size_mismatch}
use libprio_rs.Fp.{FieldParameters, add, sub, mul, neg, pow, montgomery, residue, log2}
use libprio_rs.Fp.Montgomery.{mul_lem}
use libprio_rs.Fp.Element.{IsParameters, Represents, montgomery_reduced}
use libprio_rs.Fp.Log2.{log2-least}
use libprio_rs.Fp.Params.{
  fp32, fp64, fp128, fp32-IsParameters, fp64-IsParameters, fp128-IsParameters,
}
use libprio_rs.Fp.Roots.{fp64-IsRoots}
use libprio_rs.Fp.Integers.{operations-montgomery, pow-residue}
use libprio_rs.Field.{
  FieldType, big_endian, field32, field64, from_integer, into_integer, div, root, merge_vector,
  split_vector,
}
use libprio_rs.Field.Codec.{IsFieldType, field64-IsFieldType}
use libprio_rs.Field.Arithmetic.{integer-round_trip, div-mul, root-order}
use libprio_rs.Field.Elementwise.{IsVector}
use libprio_rs.Field.Vectors.{merge_all, sums, merge_vector-sums, split_vector-merge}

mul_lem_example :
    (mul fp128 (2 ^ 128 - 1) (2 ^ 127) < fp128.p)
    × (mul fp128 (2 ^ 128 - 1) (2 ^ 127) * 2 ^ 128 % fp128.p ≡ (2 ^ 128 - 1) * 2 ^ 127 % fp128.p)
mul_lem_example =
    mul_lem fp128 fp128-IsParameters.montgomery_form (2 ^ 128 - 1) (2 ^ 127) (omega arith)
      (omega arith) (omega arith)

operations-montgomery_example :
    (add fp64 (montgomery fp64 5) (montgomery fp64 (fp64.p - 1))
      ≡ montgomery fp64 ((5 + (fp64.p - 1)) % fp64.p))
    × (sub fp64 (montgomery fp64 5) (montgomery fp64 (fp64.p - 1))
        ≡ montgomery fp64 ((5 + fp64.p - (fp64.p - 1)) % fp64.p))
    × (mul fp64 (montgomery fp64 5) (montgomery fp64 (fp64.p - 1))
        ≡ montgomery fp64 (5 * (fp64.p - 1) % fp64.p))
    × (neg fp64 (montgomery fp64 5) ≡ montgomery fp64 ((fp64.p - 5) % fp64.p))
    × ((n : ℕ) → montgomery fp64 (n % fp64.p) < fp64.p)
operations-montgomery_example =
    operations-montgomery fp64 fp64-IsParameters 5 (fp64.p - 1) (omega arith) (omega arith)

pow-residue_example : residue fp32 (pow fp32 (montgomery fp32 3) 10) ≡ 3 ^ 10 % fp32.p
pow-residue_example = pow-residue fp32 fp32-IsParameters 3 10 (omega arith) (omega arith)

log2-least_example : (9 ≤ 2 ^ log2 9) × (log2 9 ≤ 4)
log2-least_example = log2-least 9 4 (omega arith) (omega arith) (omega arith)

integer-round_trip_example :
    Represents field64.fp (from_integer field64 12) 12
    × (into_integer field64 (from_integer field64 12) ≡ ok 12)
    × (into_integer field64 99 ≡ ok (residue field64.fp 99))
    × (from_integer field64 (residue field64.fp 99) ≡ 99)
integer-round_trip_example =
    integer-round_trip field64 field64-IsFieldType 12 99 (omega arith) (omega arith)

-- GF(17), in which powers are small.
abbrev fp17 : FieldParameters
fp17 = record {
  p = 17;
  mu = 1085102592571150095;
  r2 = 1;
  g = 0;
  num_roots = 0;
  bit_mask = 31;
  roots = [];
}

abbrev field17 : FieldType
field17 = record { fp = fp17; int_bits = 32; encoded_size = 1; order = big_endian }

fp17-IsParameters : IsParameters fp17
fp17-IsParameters = record {
  montgomery_form = record { p_pos = omega arith; p_room = omega arith; mu_inverse = refl };
  r2_lt = omega arith;
  r2_square = refl;
}

field17-IsFieldType : IsFieldType field17
field17-IsFieldType = record {
  parameters = fp17-IsParameters;
  p_lt_word = omega arith;
  size_pos = omega arith;
  size_le = omega arith;
  p_lt = omega arith;
  p_lt_int = omega arith;
}

div-mul_example :
    mul fp17 (div field17 (montgomery fp17 5) (montgomery fp17 3)) (montgomery fp17 3)
    ≡ montgomery fp17 5
div-mul_example =
    div-mul field17 field17-IsFieldType (montgomery fp17 3) (montgomery fp17 5) 3 5 (omega arith)
      (montgomery_reduced fp17 fp17-IsParameters 3 (omega arith))
      (montgomery_reduced fp17 fp17-IsParameters 5 (omega arith)) refl

root-order_example :
    (x : ℕ) × (root field64 (suc 4) ≡ some x)
    × Represents field64.fp (pow field64.fp x (2 ^ suc 4)) 1
    × Represents field64.fp (pow field64.fp x (2 ^ 4)) (field64.fp.p - 1)
root-order_example =
    root-order field64 field64-IsFieldType 4 fp64-IsRoots (omega arith) (omega arith) (omega arith)

abbrev left_vector : List ℕ
left_vector = 1 ∷ 4293918720 ∷ []

abbrev right_vector : List ℕ
right_vector = 2 ∷ 3 ∷ []

merge_vector-sums_example : merge_vector field32 left_vector right_vector ≡ (
    if length left_vector == length right_vector
    then ok (sums field32.fp.p left_vector right_vector)
    else err input_size_mismatch)
merge_vector-sums_example =
    merge_vector-sums field32 (omega arith) left_vector right_vector
      (omega arith, (omega arith, tt)) (omega arith, (omega arith, tt))

abbrev drawn : ℕ → List ℕ
drawn k = 4293918720 ∷ 77 ∷ []

abbrev draw_ok : ℕ → Outcome FieldError (List ℕ)
draw_ok k = ok (drawn k)

split_vector-merge_example :
    (first : List ℕ) × (shares : List (List ℕ)) × (split_vector field32 draw_ok
        (10 ∷ 20 ∷ [])
        (suc 2)
      ≡ ok (first ∷ shares))
    × (length shares ≡ 2)
    × All (IsVector field32 2) (first ∷ shares)
    × (merge_all field32 first shares ≡ ok (10 ∷ 20 ∷ []))
split_vector-merge_example =
    split_vector-merge field32 (omega arith) draw_ok drawn 2 2 (10 ∷ 20 ∷ []) (λ k. refl)
      (λ k. (refl, (omega arith, (omega arith, tt)))) (refl, (omega arith, (omega arith, tt)))
