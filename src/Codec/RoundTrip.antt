-- ===== src/Codec/RoundTrip.antt =====
-- The round trips of src/codec.rs.
use libprio_rs.Common.{ℕ, suc, ◌+◌, ◌^◌, ◌<◌, ◌≤◌, ◌≡◌, List, [], ◌∷◌, ◌++◌, length, arith, All}
use libprio_rs.Common.Digits.{be_bytes}
use libprio_rs.Outcome.{ok, err}
use libprio_rs.Codec.{
  bytes_left_over, cursor, Decoder, Encoder, ReadBytesExt, get_decoded, get_encoded, decode_u8,
  decode_u16, decode_u24, decode_u32, decode_u64, encode_u8, encode_u16, encode_u24, encode_u32,
  encode_u64,
}
use libprio_rs.Codec.Items.{
  encode_u8_items, encode_u16_items, encode_u24_items, decode_u8_items, decode_u16_items,
  decode_u24_items,
}
use libprio_rs.Codec.Lawful.{IsLawful, get_encoded_lem, get_decoded_lem}
use libprio_rs.Codec.Ints.{u8-IsLawful, u16-IsLawful, u24-IsLawful, u32-IsLawful, u64-IsLawful}
use libprio_rs.Codec.EncodeItems.{wires}
use libprio_rs.Codec.Vectors.{u8_items-IsLawful, u16_items-IsLawful, u24_items-IsLawful}

-- Integers of 1, 2, 3, 4 and 8 bytes that fit come back from their encodings, and the encodings
-- are the integers' bytes.
pub integers-round_trip :
    (r : ReadBytesExt) (a b c d e p : ℕ) (rest : List ℕ)
    → p < 2 ^ 63
    → a < 2 ^ 8
    → b < 2 ^ 16
    → c < 2 ^ 24
    → d < 2 ^ 32
    → e < 2 ^ 64
    → (get_encoded encode_u8 a ≡ ok (a ∷ []))
      × (decode_u8 (cursor p (a ∷ rest)) ≡ ok (a, cursor (p + 1) rest))
      × (get_encoded encode_u16 b ≡ ok (be_bytes 2 b))
      × (decode_u16 r (cursor p (be_bytes 2 b ++ rest)) ≡ ok (b, cursor (p + 2) rest))
      × (get_encoded encode_u24 c ≡ ok (be_bytes 3 c))
      × (decode_u24 r (cursor p (be_bytes 3 c ++ rest)) ≡ ok (c, cursor (p + 3) rest))
      × (get_encoded encode_u32 d ≡ ok (be_bytes 4 d))
      × (decode_u32 r (cursor p (be_bytes 4 d ++ rest)) ≡ ok (d, cursor (p + 4) rest))
      × (get_encoded encode_u64 e ≡ ok (be_bytes 8 e))
      × (decode_u64 r (cursor p (be_bytes 8 e ++ rest)) ≡ ok (e, cursor (p + 8) rest))
unfolding be_bytes
integers-round_trip r a b c d e p rest hp ha hb hc hd he = (
  get_encoded_lem u8-IsLawful a ha (omega arith),
  u8-IsLawful.decodes a p rest ha (omega arith),
  get_encoded_lem (u16-IsLawful r) b hb (omega arith),
  (u16-IsLawful r).decodes b p rest hb (omega arith),
  get_encoded_lem (u24-IsLawful r) c hc (omega arith),
  (u24-IsLawful r).decodes c p rest hc (omega arith),
  get_encoded_lem (u32-IsLawful r) d hd (omega arith),
  (u32-IsLawful r).decodes d p rest hd (omega arith),
  get_encoded_lem (u64-IsLawful r) e he (omega arith),
  (u64-IsLawful r).decodes e p rest he (omega arith),
)

module _ {ℓ} {A : Type ℓ} {encode : Encoder A} {decode : Decoder A} {Valid : A → Type 0}
    {wire : A → List ℕ} (law : IsLawful encode decode Valid wire) where
  -- With a lawful codec, `get_decoded` gives back what `get_encoded` wrote, and a buffer that goes
  -- on behind the encoding is an error that counts the bytes left over.
  pub get_decoded-get_encoded :
      (a : A) (x : ℕ) (rest : List ℕ)
      → Valid a
      → length (wire a) < 2 ^ 64
      → (get_encoded encode a ≡ ok (wire a))
        × (get_decoded decode (wire a) ≡ ok a)
        × (get_decoded decode (wire a ++ (x ∷ rest)) ≡ err (bytes_left_over (length rest + 1)))
  get_decoded-get_encoded a x rest v h =
      let (whole, longer) = get_decoded_lem law a rest v h in
      (get_encoded_lem law a v h, whole, longer x)

  -- Items with a lawful codec and non-empty encodings are encoded behind a length of one, two or three
  -- bytes and decoded again, where their encodings take at most 2 ^ 8 - 1, 2 ^ 16 - 1 or 2 ^ 24 - 1
  -- bytes together, from any buffer of less than 2 ^ 63 bytes and any position below 2 ^ 63.
  pub items-round_trip :
      (nonempty : (a : A) → Valid a → 0 < length (wire a)) (r : ReadBytesExt)
      (few some_more many : List A) (bytes rest : List ℕ) (p : ℕ)
      → All Valid few
      → length (wires wire few) ≤ 0xff
      → All Valid some_more
      → length (wires wire some_more) ≤ 0xffff
      → All Valid many
      → length (wires wire many) ≤ 0xff_ffff
      → length bytes < 2 ^ 63
      → p < 2 ^ 63
      → (encode_u8_items encode bytes few
          ≡ ok (bytes ++ (length (wires wire few) ∷ wires wire few)))
        × (decode_u8_items decode (cursor p (length (wires wire few) ∷ (wires wire few ++ rest)))
            ≡ ok (few, cursor (p + suc (length (wires wire few))) rest))
        × (encode_u16_items encode bytes some_more
            ≡ ok (bytes ++ (be_bytes 2 (length (wires wire some_more)) ++ wires wire some_more)))
        × (decode_u16_items decode r (
              cursor p
                ((be_bytes 2 (length (wires wire some_more)) ++ wires wire some_more) ++ rest))
            ≡ ok (some_more, cursor (p + suc (suc (length (wires wire some_more)))) rest))
        × (encode_u24_items encode bytes many
            ≡ ok (bytes ++ (be_bytes 3 (length (wires wire many)) ++ wires wire many)))
        × (decode_u24_items decode r
              (cursor p ((be_bytes 3 (length (wires wire many)) ++ wires wire many) ++ rest))
            ≡ ok (many, cursor (p + suc (suc (suc (length (wires wire many))))) rest))
  unfolding be_bytes
  items-round_trip nonempty r few some_more many bytes rest p v₈ h₈ v₁₆ h₁₆ v₂₄ h₂₄ hb hp =
      let vector₈ = u8_items-IsLawful law nonempty in
      let vector₁₆ = u16_items-IsLawful law nonempty r in
      let vector₂₄ = u24_items-IsLawful law nonempty r in
      (
        vector₈.encodes few bytes (v₈, h₈) (omega arith),
        vector₈.decodes few p rest (v₈, h₈) (omega arith),
        vector₁₆.encodes some_more bytes (v₁₆, h₁₆) (omega arith),
        vector₁₆.decodes some_more p rest (v₁₆, h₁₆) (omega arith),
        vector₂₄.encodes many bytes (v₂₄, h₂₄) (omega arith),
        vector₂₄.decodes many p rest (v₂₄, h₂₄) (omega arith),
      )
