-- ===== src/Field/Slices.antt =====
-- Slices of field elements as bytes: `slice_into_byte_vec` and `byte_slice_into_vec`.
use libprio_rs.Common.{
  ℕ, ◌*◌, ◌<◌, ◌≡◌, refl, sym, ap, ◌∙◌, List, [], ◌∷◌, ◌++◌, arith, length, All, length-append,
  take, drop, take-append, drop-append,
}
use libprio_rs.Outcome.{ok}
use libprio_rs.Codec.Lawful.{get_decoded_lem}
use libprio_rs.Field.{FieldType, slice_into_byte_vec, decode_chunks, byte_slice_into_vec}
use libprio_rs.Field.Codec.{IsFieldType, wire, length-wire, to_bytes_lem, element-IsLawful}
use native.Mathlib.Nat.{mul-div_cancel, mul-mod_left}

module _ (f : FieldType) (ok_f : IsFieldType f) where
  open f use {fp, encoded_size}

  length-slice_into_byte_vec :
      (xs : List ℕ) → length (slice_into_byte_vec f xs) ≡ length xs * encoded_size
  unfolding slice_into_byte_vec
  length-slice_into_byte_vec [] = omega arith
  length-slice_into_byte_vec (x ∷ xs) = rw (to_bytes_lem f ok_f x) (
      omega (
        arith,
        length-append (wire f ok_f x) (slice_into_byte_vec f xs),
        length-wire f ok_f x,
        length-slice_into_byte_vec xs,
      ))

  decode_chunks_lem :
      (xs : List ℕ)
      → All (λ x. x < fp.p) xs
      → decode_chunks f (length xs) (slice_into_byte_vec f xs) ≡ ok xs
  unfolding slice_into_byte_vec decode_chunks
  decode_chunks_lem [] h = refl
  decode_chunks_lem (x ∷ xs) (hx, h) =
      let w = wire f ok_f x in
      let rest = slice_into_byte_vec f xs in
      let len = length-wire f ok_f x in
      let decoded =
        (get_decoded_lem (element-IsLawful f ok_f) x [] hx (omega (arith, ok_f.size_le))).0 in
      let front : take encoded_size (w ++ rest) ≡ w =
        ap (λ (k : ℕ). take k (w ++ rest)) (sym len) ∙ take-append w rest in
      let behind : drop encoded_size (w ++ rest) ≡ rest =
        ap (λ (k : ℕ). drop k (w ++ rest)) (sym len) ∙ drop-append w rest in
      rw (to_bytes_lem f ok_f x, front, behind, decoded, decode_chunks_lem xs h) refl

  -- A slice of reduced elements comes back from its bytes.
  pub byte_slice-round_trip :
      (xs : List ℕ)
      → All (λ x. x < fp.p) xs
      → byte_slice_into_vec f (slice_into_byte_vec f xs) ≡ ok xs
  unfolding byte_slice_into_vec
  byte_slice-round_trip xs h =
      let e = length-slice_into_byte_vec xs in
      rw (e, mul-div_cancel (length xs) ok_f.size_pos, mul-mod_left (length xs) encoded_size)
        (decode_chunks_lem xs h)
