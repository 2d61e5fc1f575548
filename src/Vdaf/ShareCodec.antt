-- ===== src/Vdaf/ShareCodec.antt =====
-- The codec of shares.
use libprio_rs.Common.{
  ℕ, ◌+◌, ◌*◌, ◌^◌, ◌≤◌, ◌<◌, ◌≡◌, refl, sym, ap, ◌∙◌, List, [], ◌∷◌, ◌++◌, arith, length,
  length-append, append_assoc, append-nil, All,
}
use libprio_rs.Outcome.{ok}
use libprio_rs.Codec.{cursor}
use libprio_rs.Codec.Ints.{read_exact-append}
use libprio_rs.Codec.EncodeItems.{wires}
use libprio_rs.Field.{FieldType}
use libprio_rs.Field.Codec.{IsFieldType, wire, length-wire, element-IsLawful}
use native.Mathlib.Nat.{mul-le-mul_left}
use libprio_rs.Vdaf.{
  leader, helper, leader_length, helper_seed, decode_elements, encode_elements, decode_share,
  encode_share, decode_seed, encode_seed,
}

module _ (f : FieldType) (ok_f : IsFieldType f) where
  open f use {fp, encoded_size}

  pub length-wires : (xs : List ℕ) → length (wires (wire f ok_f) xs) ≡ length xs * encoded_size
  length-wires [] = omega arith
  length-wires (x ∷ xs) = omega (
    arith,
    length-append (wire f ok_f x) (wires (wire f ok_f) xs),
    length-wire f ok_f x,
    length-wires xs,
  )

  pub encode_elements_lem :
      (xs bytes : List ℕ)
      → All (λ x. x < fp.p) xs
      → length bytes + length (wires (wire f ok_f) xs) < 2 ^ 64
      → encode_elements f xs bytes ≡ ok (bytes ++ wires (wire f ok_f) xs)
  unfolding encode_elements
  encode_elements_lem [] bytes h fits = ap ok (sym (append-nil bytes))
  encode_elements_lem (x ∷ xs) bytes (hx, h) fits =
      let w = wire f ok_f x in
      let rest = wires (wire f ok_f) xs in
      let l = length-append w rest in
      rw ((element-IsLawful f ok_f).encodes x bytes hx (omega (arith, l))) (
        encode_elements_lem xs (bytes ++ w) h (omega (arith, l, length-append bytes w))
        ∙ ap ok (append_assoc bytes w rest))

  pub decode_elements_lem :
      (xs rest : List ℕ) (p : ℕ)
      → All (λ x. x < fp.p) xs
      → p + length (wires (wire f ok_f) xs) < 2 ^ 64
      → decode_elements f (length xs) (cursor p (wires (wire f ok_f) xs ++ rest))
        ≡ ok (xs, cursor (p + length (wires (wire f ok_f) xs)) rest)
  unfolding decode_elements
  decode_elements_lem [] rest p h fits =
      ap (λ (q : ℕ). ok ([], cursor q rest)) {x = p} {y = p + 0} (omega arith)
  decode_elements_lem (x ∷ xs) rest p (hx, h) fits =
      let w = wire f ok_f x in
      let ws = wires (wire f ok_f) xs in
      let l = length-append w ws in
      rw
        (
          append_assoc w ws rest,
          (element-IsLawful f ok_f).decodes x p (ws ++ rest) hx (omega (arith, l)),
          decode_elements_lem xs rest (p + length w) h (omega (arith, l)),
        )
        (ap (λ (q : ℕ). ok (x ∷ xs, cursor q rest)) {x = p + length w + length ws}
          (omega (arith, l)))

  -- A leader's share of reduced elements and a helper's seed of l bytes round-trip: the encoding is
  -- appended to the buffer and decodes, with the parameter of the share, in front of other bytes.
  -- The leader's encoding has `encoded_size` bytes for each element.
  pub share-round_trip :
      (xs seed bytes rest : List ℕ) (p : ℕ)
      → All (λ x. x < fp.p) xs
      → length xs < 2 ^ 32
      → length seed < 2 ^ 32
      → length bytes < 2 ^ 63
      → p < 2 ^ 63
      → (w : List ℕ) × (length w ≡ length xs * encoded_size)
        × (encode_share f (leader xs) bytes ≡ ok (bytes ++ w))
        × (decode_share f (length seed) (leader_length (length xs)) (cursor p (w ++ rest))
            ≡ ok (leader xs, cursor (p + length w) rest))
        × (encode_share f (helper seed) bytes ≡ ok (bytes ++ seed))
        × (decode_share f (length seed) helper_seed (cursor p (seed ++ rest))
            ≡ ok (helper seed, cursor (p + length seed) rest))
  unfolding encode_share decode_share encode_seed decode_seed
  share-round_trip xs seed bytes rest p h hx hs hb hp =
      let w = wires (wire f ok_f) xs in
      let len = length-wires xs in
      let small : length w ≤ length xs * 16 =
        omega (arith, len, mul-le-mul_left {m = encoded_size} {n = 16} (length xs) ok_f.size_le) in
      (
        w,
        len,
        encode_elements_lem xs bytes h (omega arith),
        rw (decode_elements_lem xs rest p h (omega arith)) refl,
        refl,
        rw (read_exact-append seed p rest) refl,
      )
