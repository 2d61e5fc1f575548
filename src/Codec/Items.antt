-- ===== src/Codec/Items.antt =====
-- src/codec.rs, `encode_u8_items` to `decode_items`: vectors behind a length of 1, 2 or 3 bytes.
use libprio_rs.Common.{
  ℕ, zero, suc, ◌+◌, ◌%◌, ◌^◌, Bool, not, ◌||◌, List, [], ◌∷◌, ◌++◌, ltb, leb, if◌then◌else◌,
  length, take, drop, set,
}
use libprio_rs.Common.Digits.{be_bytes}
use libprio_rs.Common.Words.{usize_sub, usize_word}
use libprio_rs.Outcome.{Outcome, ok, diverged, ◌>>=◌, ◌>>◌, assert, guard}
use libprio_rs.Codec.{
  CodecError, length_prefix_too_big, Cursor, cursor, Decoder, Encoder, ReadBytesExt, decode_u8,
  decode_u16, decode_u24, encode_u16, encode_u24,
}

-- `for (offset, byte) in bs.iter().enumerate() { bytes[len_offset + offset] = *byte; }`
unfoldable pub write_at : List ℕ → ℕ → List ℕ → List ℕ
write_at bytes len_offset [] = bytes
write_at bytes len_offset (b ∷ bs) = write_at (set bytes len_offset b) (len_offset + 1) bs

module _ {ℓ} {A : Type ℓ} (encode : Encoder A) where
  -- `for item in items { item.encode_with_param(encoding_parameter, bytes); }`
  unfoldable pub encode_all : List A → List ℕ → Outcome ⊥ (List ℕ)
  encode_all [] bytes = ok bytes
  encode_all (a ∷ items) bytes = encode a bytes >>= encode_all items

  unfoldable pub encode_u8_items : List ℕ → List A → Outcome ⊥ (List ℕ)
  encode_u8_items bytes items = do
    let len_offset = length bytes
    bytes' ← encode_all items (bytes ++ (0 ∷ []))
    let len = usize_sub (usize_sub (length bytes') len_offset) 1
    assert (leb len 0xff)
    ok (set bytes' len_offset (len % 2 ^ 8))

  unfoldable pub encode_u16_items : List ℕ → List A → Outcome ⊥ (List ℕ)
  unfolding encode_u16
  encode_u16_items bytes items = do
    let len_offset = length bytes
    bytes₀ ← encode_u16 0 bytes
    bytes' ← encode_all items bytes₀
    let len = usize_sub (usize_sub (length bytes') len_offset) 2
    assert (leb len 0xffff)
    ok (write_at bytes' len_offset (be_bytes 2 (len % 2 ^ 16)))

  unfoldable pub encode_u24_items : List ℕ → List A → Outcome ⊥ (List ℕ)
  unfolding encode_u24
  encode_u24_items bytes items = do
    let len_offset = length bytes
    bytes₀ ← encode_u24 0 bytes
    bytes' ← encode_all items bytes₀
    let len = usize_sub (usize_sub (length bytes') len_offset) 3
    assert (leb len 0xff_ffff)
    ok (write_at bytes' len_offset (drop 1 (be_bytes 4 (len % 2 ^ 32))))

-- `overflowed || items_end > inner.len()`
unfoldable pub is_too_big : ℕ → Cursor → Bool
is_too_big len c =
    let inner_len = c.position + length c.unread in
    let items_end = (c.position + len) % usize_word in
    let overflowed = leb usize_word (c.position + len) in overflowed || ltb inner_len items_end

-- `bytes.set_position(initial_position as u64 + sub.position())`
unfoldable pub move_on : Cursor → Cursor → Cursor
move_on c sub = cursor (c.position + sub.position) (drop sub.position c.unread)

module _ {ℓ} {A : Type ℓ} (decode : Decoder A) where
  -- `while sub.position() < length as u64 { decoded.push(D::decode_with_param(..)?); }`
  -- A decoder that reads nothing is called for ever.
  unfoldable pub decode_loop : ℕ → ℕ → Cursor → List A → Outcome CodecError (List A × Cursor)
  decode_loop zero len sub decoded = diverged
  decode_loop (suc fuel) len sub decoded =
      if ltb sub.position len
      then (decode sub >>= λ r. decode_loop fuel len r.1 (decoded ++ (r.0 ∷ [])))
      else ok (decoded, sub)

  -- Each round reads a byte at least or is repeated for ever, so `len + 1` tests are enough.
  unfoldable pub decode_items : ℕ → Decoder (List A)
  decode_items len c = do
    guard (not (is_too_big len c)) (length_prefix_too_big len)
    r ← decode_loop (len + 1) len (cursor 0 (take len c.unread)) []
    ok (r.0, move_on c r.1)

  unfoldable pub decode_u8_items : Decoder (List A)
  decode_u8_items c = do (len, c') ← decode_u8 c; decode_items len c'

  module _ (r : ReadBytesExt) where
    unfoldable pub decode_u16_items : Decoder (List A)
    decode_u16_items c = do (len, c') ← decode_u16 r c; decode_items len c'

    unfoldable pub decode_u24_items : Decoder (List A)
    decode_u24_items c = do (len, c') ← decode_u24 r c; decode_items len c'
