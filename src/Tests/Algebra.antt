-- ===== src/Tests/Algebra.antt =====
-- src/util.rs and src/polynomial.rs on concrete inputs.
use libprio_rs.Common.{
  ℕ, suc, ◌+◌, ◌-◌, ◌*◌, ◌^◌, ◌<◌, ◌≡◌, ◌≢◌, ◌⊎◌, refl, arith, List, [], ◌∷◌, ◌++◌, map, length,
  drop, replicate, some, get_elem?,
}
use libprio_rs.Outcome.{Outcome, ok, err}
use libprio_rs.Codec.{FieldError}
use libprio_rs.Fp.{residue}
use libprio_rs.Fp.Element.{Represents, montgomery_reduced}
use libprio_rs.Fp.Params.{fp32-IsParameters}
use libprio_rs.Field.{field32, split_vector, eq, one, from_integer}
use libprio_rs.Field.Codec.{field32-IsFieldType}
use libprio_rs.Fp.{montgomery, neg, sub, mul, add}
use libprio_rs.Util.{
  unpack_input_size_mismatch, proof_length, UnpackedProof, unpack_proof, reconstruct_shares,
}
use libprio_rs.Util.Layout.{unpack_proof_lem}
use libprio_rs.Util.Shares.{reconstruct_shares-split_vector}
use libprio_rs.Polynomial.{
  poly_eval, poly_deg, poly_mul, mul_rows, mul_row, mul_term, deg_loop, eval_loop, range_loop,
  poly_range_check,
}
use libprio_rs.Polynomial.Product.{poly_mul-value}
use libprio_rs.Common.Congruence.{Congruent}
use libprio_rs.Common.{All}
use libprio_rs.Polynomial.Evaluation.{value, poly_eval-value, poly_deg-top}

abbrev seven_words : List ℕ
seven_words = 1 ∷ 2 ∷ 3 ∷ 4 ∷ 5 ∷ 6 ∷ 7 ∷ []

unpack_proof_lem_example :
    (n j : ℕ) × (proof_length 2 ≡ ok (2 + 3 + n))
    × (n ≡ 2 ^ j)
    × (2 < n)
    × (((length seven_words ≢ 2 + 3 + n)
          × (unpack_proof seven_words 2 ≡ err unpack_input_size_mismatch))
        ⊎ ((u : UnpackedProof) × (unpack_proof seven_words 2 ≡ ok u)
            × (seven_words ≡ u.data_items ++ (u.f0 ∷ u.g0 ∷ u.h0 ∷ u.points_h_packed))
            × (length u.data_items ≡ 2)
            × (length u.points_h_packed ≡ n)))
unpack_proof_lem_example = unpack_proof_lem seven_words 2 (omega arith)

abbrev drawn_pair : ℕ → List ℕ
drawn_pair k = 4293918720 ∷ 77 ∷ []

abbrev draw_pair_ok : ℕ → Outcome FieldError (List ℕ)
draw_pair_ok k = ok (drawn_pair k)

reconstruct_shares-split_vector_example :
    (first second : List ℕ) × (split_vector field32 draw_pair_ok (10 ∷ 20 ∷ []) 2
      ≡ ok (first ∷ second ∷ []))
    × (reconstruct_shares field32 first second ≡ some (10 ∷ 20 ∷ []))
reconstruct_shares-split_vector_example =
    reconstruct_shares-split_vector field32 (omega arith) draw_pair_ok drawn_pair 2 (10 ∷ 20 ∷ [])
      (λ k. refl) (λ k. (refl, (omega arith, (omega arith, tt))))
      (refl, (omega arith, (omega arith, tt)))

abbrev coefficients : List ℕ
coefficients = 11 ∷ 22 ∷ 0 ∷ []

poly_eval-value_example :
    (r : ℕ) × (poly_eval field32 coefficients (montgomery field32.fp 5) ≡ ok r)
    × Represents field32.fp r (value (map (residue field32.fp) coefficients) 5)
poly_eval-value_example =
    poly_eval-value field32 field32-IsFieldType coefficients (montgomery field32.fp 5) 5
      (omega arith, (omega arith, (omega arith, tt)))
      (montgomery_reduced field32.fp fp32-IsParameters 5 (omega arith))

poly_deg-top_example :
    (d : ℕ) × (poly_deg field32 coefficients ≡ ok d)
    × (drop (suc d) coefficients ≡ replicate (length coefficients - suc d) 0)
    × ((d ≡ 0) ⊎ ((x : ℕ) × (get_elem? coefficients d ≡ some x) × (0 < x)))
poly_deg-top_example =
    poly_deg-top field32 field32-IsFieldType coefficients
      (omega arith, (omega arith, (omega arith, tt)))

-- The polynomial (x - 5) * (x - 6), its value at 6 and at 7.
abbrev five_six : List ℕ
five_six = map (montgomery field32.fp) (30 ∷ 4293918710 ∷ 1 ∷ [])

five_six_made : poly_range_check field32 5 7 ≡ ok five_six
unfolding poly_range_check range_loop poly_mul mul_rows mul_row mul_term poly_deg deg_loop eq one
    from_integer neg sub mul add montgomery residue
five_six_made = refl

five_six_at_six : poly_eval field32 five_six (montgomery field32.fp 6) ≡ ok 0
unfolding poly_eval eval_loop mul add montgomery
five_six_at_six = refl

five_six_at_seven :
    poly_eval field32 five_six (montgomery field32.fp 7) ≡ ok (montgomery field32.fp 2)
unfolding poly_eval eval_loop mul add montgomery
five_six_at_seven = refl

-- The product with 7 * x, where a zero stands behind the coefficients.
abbrev seven_x : List ℕ
seven_x = map (montgomery field32.fp) (0 ∷ 7 ∷ 0 ∷ [])

poly_mul-value_example :
    (r : List ℕ) × (poly_mul field32 five_six seven_x ≡ ok r)
    × All (λ x. x < field32.fp.p) r
    × ((a : ℕ)
        → Congruent field32.fp.p (value (map (residue field32.fp) r) a) (
            value (map (residue field32.fp) five_six) a
            * value (map (residue field32.fp) seven_x) a))
unfolding montgomery mul
poly_mul-value_example =
    poly_mul-value field32 field32-IsFieldType five_six seven_x
      (omega arith, (omega arith, (omega arith, tt)))
      (omega arith, (omega arith, (omega arith, tt))) (omega arith) (omega arith)
