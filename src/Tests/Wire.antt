-- ===== src/Tests/Wire.antt =====
-- The codecs of src/codec.rs and src/field.rs on concrete bytes.
use libprio_rs.Common.{
  ℕ, ◌+◌, ◌^◌, ◌<◌, ◌≡◌, ◌≢◌, refl, arith, List, [], ◌∷◌, ◌++◌, All, length, ap, drop,
}
use libprio_rs.Common.Digits.{be_bytes}
use libprio_rs.Outcome.{ok, err, diverged}
use libprio_rs.Codec.{
  io, first_byte, Cursor, cursor, ReadBytesExt, read_be, get_decoded, get_encoded, decode_unit,
  decode_u8, decode_u16, decode_u24, decode_u32, decode_u64, encode_u8, encode_u16, encode_u24,
  encode_u32, encode_u64,
}
use libprio_rs.Codec.Items.{
  encode_u8_items, encode_u16_items, encode_u24_items, decode_u8_items, decode_u16_items,
  decode_u24_items, decode_items, decode_loop, is_too_big, move_on,
}
use libprio_rs.Codec.Ints.{u8-IsLawful, read_exact-append}
use libprio_rs.Codec.EncodeItems.{encode_items_lem}
use libprio_rs.Codec.RoundTrip.{integers-round_trip, items-round_trip}
use libprio_rs.Codec.Progress.{
  Advances, StaysInside, decode_items-ne-diverged, decode_items_position, decode_unit-diverges,
}
use libprio_rs.Fp.{montgomery, mul}
use libprio_rs.Field.{
  try_from_bytes, load_loop, field32, field_priov2, field96, encode, decode, slice_into_byte_vec,
  byte_slice_into_vec,
}
use libprio_rs.Field.Codec.{
  field32-IsFieldType, field_priov2-IsFieldType, field96-IsFieldType, wire, decode-encode,
  decode-canonical,
}
use libprio_rs.Field.Slices.{byte_slice-round_trip}

-- `byteorder` as its documentation has it.
abbrev pub reader : ReadBytesExt
reader = record {
  read_u16 = read_be 2;
  read_u24 = read_be 3;
  read_u32 = read_be 4;
  read_u64 = read_be 8;
  read_u16_lem = λ c. refl;
  read_u24_lem = λ c. refl;
  read_u32_lem = λ c. refl;
  read_u64_lem = λ c. refl;
}

integers-round_trip_example :
    (get_encoded encode_u8 1 ≡ ok (1 ∷ []))
    × (decode_u8 (cursor 4 (1 ∷ 9 ∷ [])) ≡ ok (1, cursor (4 + 1) (9 ∷ [])))
    × (get_encoded encode_u16 515 ≡ ok (be_bytes 2 515))
    × (decode_u16 reader (cursor 4 (be_bytes 2 515 ++ (9 ∷ [])))
        ≡ ok (515, cursor (4 + 2) (9 ∷ [])))
    × (get_encoded encode_u24 70000 ≡ ok (be_bytes 3 70000))
    × (decode_u24 reader (cursor 4 (be_bytes 3 70000 ++ (9 ∷ [])))
        ≡ ok (70000, cursor (4 + 3) (9 ∷ [])))
    × (get_encoded encode_u32 1 ≡ ok (be_bytes 4 1))
    × (decode_u32 reader (cursor 4 (be_bytes 4 1 ++ (9 ∷ []))) ≡ ok (1, cursor (4 + 4) (9 ∷ [])))
    × (get_encoded encode_u64 2 ≡ ok (be_bytes 8 2))
    × (decode_u64 reader (cursor 4 (be_bytes 8 2 ++ (9 ∷ []))) ≡ ok (2, cursor (4 + 8) (9 ∷ [])))
integers-round_trip_example =
    integers-round_trip reader 1 515 70000 1 2 4 (9 ∷ []) (omega arith) (omega arith) (omega arith)
      (omega arith) (omega arith) (omega arith)

abbrev three_items : List ℕ
three_items = 1 ∷ 2 ∷ 255 ∷ []

abbrev three_Valid : All (λ v. v < 2 ^ 8) three_items
three_Valid = (omega arith, (omega arith, (omega arith, tt)))

items-round_trip_example :
    (encode_u8_items encode_u8 (7 ∷ []) three_items ≡ ok (7 ∷ 3 ∷ 1 ∷ 2 ∷ 255 ∷ []))
    × (decode_u8_items decode_u8 (cursor 5 (3 ∷ 1 ∷ 2 ∷ 255 ∷ 8 ∷ []))
        ≡ ok (three_items, cursor (5 + 4) (8 ∷ [])))
    × (encode_u16_items encode_u8 (7 ∷ []) three_items ≡ ok (7 ∷ 0 ∷ 3 ∷ 1 ∷ 2 ∷ 255 ∷ []))
    × (decode_u16_items decode_u8 reader (cursor 5 (0 ∷ 3 ∷ 1 ∷ 2 ∷ 255 ∷ 8 ∷ []))
        ≡ ok (three_items, cursor (5 + 5) (8 ∷ [])))
    × (encode_u24_items encode_u8 (7 ∷ []) three_items ≡ ok (7 ∷ 0 ∷ 0 ∷ 3 ∷ 1 ∷ 2 ∷ 255 ∷ []))
    × (decode_u24_items decode_u8 reader (cursor 5 (0 ∷ 0 ∷ 3 ∷ 1 ∷ 2 ∷ 255 ∷ 8 ∷ []))
        ≡ ok (three_items, cursor (5 + 6) (8 ∷ [])))
unfolding be_bytes
items-round_trip_example =
    items-round_trip u8-IsLawful (λ a v. omega arith) reader three_items three_items three_items
      (7 ∷ []) (8 ∷ []) 5 three_Valid (omega arith) three_Valid (omega arith) three_Valid
      (omega arith) (omega arith) (omega arith)

encode_items_lem_example :
    (encode_u8_items encode_u8 [] three_items ≡ ok (3 ∷ 1 ∷ 2 ∷ 255 ∷ []))
    × (encode_u16_items encode_u8 [] three_items ≡ ok (0 ∷ 3 ∷ 1 ∷ 2 ∷ 255 ∷ []))
    × (encode_u24_items encode_u8 [] three_items ≡ ok (0 ∷ 0 ∷ 3 ∷ 1 ∷ 2 ∷ 255 ∷ []))
unfolding be_bytes
encode_items_lem_example = encode_items_lem u8-IsLawful [] three_items three_Valid (omega arith)

u8_front : (p b : ℕ) (bs : List ℕ) → decode_u8 (cursor p (b ∷ bs)) ≡ ok (b, cursor (p + 1) bs)
unfolding decode_u8 first_byte
u8_front p b bs = rw (read_exact-append (b ∷ []) p bs) refl

u8_end : (p : ℕ) → decode_u8 (cursor p []) ≡ err io
unfolding decode_u8
u8_end p = refl

u8-returns : (p : ℕ) (bs : List ℕ) → decode_u8 (cursor p bs) ≢ diverged
u8-returns p [] = λ e. let h = u8_end p in cc
u8-returns p (b ∷ bs) = λ e. let h = u8_front p b bs in cc

u8_result :
    (p : ℕ) (bs : List ℕ) (r : ℕ × Cursor)
    → decode_u8 (cursor p bs) ≡ ok r
    → (r.1.position ≡ p + 1) × (r.1.position + length r.1.unread ≡ p + length bs)
u8_result p [] r e = let h = u8_end p in cc
u8_result p (b ∷ bs) r e =
    let h = u8_front p b bs in
    let same : (b, cursor (p + 1) bs) ≡ r = cc in
    let at_position : p + 1 ≡ r.1.position = ap (λ (t : ℕ × Cursor). t.1.position) same in
    let at_unread : length bs ≡ length r.1.unread =
      ap (λ (t : ℕ × Cursor). length t.1.unread) same in
    (omega arith, omega arith)

u8-Advances : Advances decode_u8
u8-Advances = record {
  returns = λ c. u8-returns c.position c.unread;
  moves = λ c r e. omega (arith, (u8_result c.position c.unread r e).0);
}

u8-StaysInside : StaysInside decode_u8
u8-StaysInside = λ c r e. (u8_result c.position c.unread r e).1

decode_items-ne-diverged_example :
    decode_items decode_u8 3 (cursor 0 (1 ∷ 2 ∷ 3 ∷ 4 ∷ [])) ≢ diverged
decode_items-ne-diverged_example =
    decode_items-ne-diverged decode_u8 u8-Advances 3 (cursor 0 (1 ∷ 2 ∷ 3 ∷ 4 ∷ []))

abbrev last_byte : List ℕ
last_byte = 4 ∷ []

decode_items_position_example : (5 ≡ 2 + 3) × (last_byte ≡ drop 3 (1 ∷ 2 ∷ 3 ∷ 4 ∷ []))
unfolding decode_u8 first_byte decode_items decode_loop is_too_big move_on
decode_items_position_example =
    decode_items_position decode_u8 u8-StaysInside 3 (cursor 2 (1 ∷ 2 ∷ 3 ∷ 4 ∷ []))
      (1 ∷ 2 ∷ 3 ∷ []) (cursor 5 last_byte) refl

decode_unit-diverges_example : decode_loop decode_unit 1000000 1 (cursor 0 (0 ∷ [])) [] ≡ diverged
decode_unit-diverges_example = decode_unit-diverges 1000000 1 (cursor 0 (0 ∷ [])) [] (omega arith)

decode-encode_example :
    (w : List ℕ) × (length w ≡ 12)
    × (encode field96 1234567 (1 ∷ []) ≡ ok ((1 ∷ []) ++ w))
    × (decode field96 (cursor 3 (w ++ (2 ∷ []))) ≡ ok (1234567, cursor (3 + 12) (2 ∷ [])))
    × (get_decoded (decode field96) w ≡ ok 1234567)
decode-encode_example =
    decode-encode field96 field96-IsFieldType 1234567 3 (1 ∷ []) (2 ∷ []) (omega arith)
      (omega arith) (omega arith)

byte_slice-round_trip_example :
    byte_slice_into_vec field32 (slice_into_byte_vec field32 (1 ∷ 2 ∷ 3 ∷ [])) ≡ ok (1 ∷ 2 ∷ 3 ∷ [])
byte_slice-round_trip_example =
    byte_slice-round_trip field32 field32-IsFieldType (1 ∷ 2 ∷ 3 ∷ [])
      (omega arith, (omega arith, (omega arith, tt)))

abbrev five_bytes : List ℕ
five_bytes = 5 ∷ 0 ∷ 0 ∷ 0 ∷ 9 ∷ []

abbrev reduced_five : ℕ
reduced_five = 4232614878

decoded_five : decode field_priov2 (cursor 0 five_bytes) ≡ ok (reduced_five, cursor 4 (9 ∷ []))
unfolding decode try_from_bytes load_loop montgomery mul
decoded_five = refl

-- The element 5 of `FieldPriov2` in little endian, before another byte.
decode-canonical_example :
    (reduced_five < 4293918721)
    × (five_bytes ≡ wire field_priov2 field_priov2-IsFieldType reduced_five ++ (9 ∷ []))
    × (4 ≡ 0 + 4)
decode-canonical_example =
    decode-canonical field_priov2 field_priov2-IsFieldType (cursor 0 five_bytes) (cursor 4 (9 ∷ []))
      reduced_five (omega arith, (omega arith, (omega arith, (omega arith, (omega arith, tt)))))
      decoded_five
