-- ===== src/Codec.antt =====
-- src/codec.rs: the TLS wire encoding.
pub mod Items
pub mod Lawful
pub mod Ints
pub mod EncodeItems
pub mod DecodeItems
pub mod Vectors
pub mod Progress
pub mod RoundTrip
use libprio_rs.Common.{
  ℕ, zero, suc, ◌+◌, ◌-◌, ◌*◌, ◌%◌, ◌^◌, ◌≡◌, Bool, true, false, ◌||◌, List, [], ◌∷◌, ◌++◌, ltb,
  leb, ◌==◌, if◌then◌else◌, length, take, drop, set,
}
use libprio_rs.Common.Digits.{be_bytes, from_be}
use libprio_rs.Outcome.{Outcome, ok, err, panicked, diverged, ◌>>=◌, ◌>>◌, assert, guard}

-- The error types of codec.rs and field.rs, which hold one another. The errors that
-- `CodecError::Other` boxes are the field's.
mutual
  pub data CodecError : Type 0 where
    io : CodecError
    bytes_left_over : ℕ → CodecError
    length_prefix_too_big : ℕ → CodecError
    other : FieldError → CodecError
    unexpected_value : CodecError

  pub data FieldError : Type 0 where
    input_size_mismatch : FieldError
    short_read : FieldError
    modulus_overflow : FieldError
    field_io : FieldError
    codec : CodecError → FieldError

-- `Cursor<&[u8]>`: the position, and the bytes from there on. No decoder moves a cursor past the end
-- of its buffer; one that a caller's `set_position` has moved there is not represented.
pub record Cursor : Type 0 where
  pub position : ℕ
  pub unread : List ℕ

abbrev pub cursor : ℕ → List ℕ → Cursor
cursor p bs = record { position = p; unread = bs }

-- `decode` and `decode_with_param`, and `encode` and `encode_with_param`, of one type and one
-- parameter. Encoding has no errors, but can panic.
abbrev pub Decoder {ℓ} : Type ℓ → Type ℓ
Decoder A = Cursor → Outcome CodecError (A × Cursor)

abbrev pub Encoder {ℓ} : Type ℓ → Type ℓ
Encoder A = A → List ℕ → Outcome ⊥ (List ℕ)

-- `Read::read_exact` of a cursor.
abbrev pub read_exact : ℕ → Decoder (List ℕ)
read_exact n c =
    if leb n (length c.unread)
    then ok (take n c.unread, cursor (c.position + n) (drop n c.unread))
    else err io

-- A big-endian integer of n bytes.
abbrev pub read_be : ℕ → Decoder ℕ
read_be n c = do (bs, c') ← read_exact n c; ok (from_be bs, c')

-- `byteorder::ReadBytesExt` with `BigEndian`: each function reads as many bytes as the integer
-- has, by `read_exact`, and takes them as a big-endian integer.
pub record ReadBytesExt : Type 0 where
  pub read_u16 : Decoder ℕ
  pub read_u24 : Decoder ℕ
  pub read_u32 : Decoder ℕ
  pub read_u64 : Decoder ℕ
  pub read_u16_lem : (c : Cursor) → read_u16 c ≡ read_be 2 c
  pub read_u24_lem : (c : Cursor) → read_u24 c ≡ read_be 3 c
  pub read_u32_lem : (c : Cursor) → read_u32 c ≡ read_be 4 c
  pub read_u64_lem : (c : Cursor) → read_u64 c ≡ read_be 8 c

-- `get_decoded_with_param` and `get_decoded`.
unfoldable pub get_decoded {ℓ} : {A : Type ℓ} → Decoder A → List ℕ → Outcome CodecError A
get_decoded decode bytes = do
  (decoded, c) ← decode (cursor 0 bytes)
  guard (c.position == length bytes) (bytes_left_over (length bytes - c.position))
  ok decoded

-- `get_encoded_with_param` and `get_encoded`.
unfoldable pub get_encoded {ℓ} : {A : Type ℓ} → Encoder A → A → Outcome ⊥ (List ℕ)
get_encoded encode a = encode a []

unfoldable pub decode_unit : Decoder (Unit {0})
decode_unit c = ok (tt, c)

unfoldable pub encode_unit : Encoder (Unit {0})
encode_unit a bytes = ok bytes

-- `value[0]` after `read_exact` of one byte.
unfoldable pub first_byte : List ℕ → Cursor → Outcome CodecError (ℕ × Cursor)
first_byte [] c = panicked
first_byte (b ∷ bs) c = ok (b, c)

unfoldable pub decode_u8 : Decoder ℕ
unfolding first_byte
decode_u8 c = do (value, c') ← read_exact 1 c; first_byte value c'

unfoldable pub encode_u8 : Encoder ℕ
encode_u8 v bytes = ok (bytes ++ (v ∷ []))

unfoldable pub encode_u16 : Encoder ℕ
encode_u16 v bytes = ok (bytes ++ be_bytes 2 v)

-- The lower three bytes of the `u32`.
unfoldable pub encode_u24 : Encoder ℕ
encode_u24 v bytes = ok (bytes ++ drop 1 (be_bytes 4 v))

unfoldable pub encode_u32 : Encoder ℕ
encode_u32 v bytes = ok (bytes ++ be_bytes 4 v)

unfoldable pub encode_u64 : Encoder ℕ
encode_u64 v bytes = ok (bytes ++ be_bytes 8 v)

module _ (r : ReadBytesExt) where
  unfoldable pub decode_u16 : Decoder ℕ
  decode_u16 = r.read_u16

  unfoldable pub decode_u24 : Decoder ℕ
  decode_u24 = r.read_u24

  unfoldable pub decode_u32 : Decoder ℕ
  decode_u32 = r.read_u32

  unfoldable pub decode_u64 : Decoder ℕ
  decode_u64 = r.read_u64
