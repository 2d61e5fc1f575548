-- ===== src/Codec/Vectors.antt =====
-- The vector codecs are lawful where their items' codec is.
use libprio_rs.Common.{
  ℕ, ◌+◌, ◌≤◌, ◌<◌, ap, ◌∙◌, List, ◌∷◌, ◌++◌, length, length-append, append_assoc, arith, le→leb,
  All,
}
use libprio_rs.Common.Digits.{be_bytes, length-be_bytes}
use libprio_rs.Outcome.{ok}
use libprio_rs.Codec.{cursor, Decoder, Encoder, ReadBytesExt}
use libprio_rs.Codec.Items.{
  encode_u8_items, encode_u16_items, encode_u24_items, decode_u8_items, decode_u16_items,
  decode_u24_items,
}
use libprio_rs.Codec.EncodeItems.{
  wires, encode_u8_items_lem, encode_u16_items_lem, encode_u24_items_lem,
}
use libprio_rs.Codec.DecodeItems.{decode_items_lem}
use libprio_rs.Codec.Lawful.{IsLawful}
use libprio_rs.Codec.Ints.{u8-IsLawful, u16-IsLawful, u24-IsLawful}

-- The items are valid, and their encodings take at most `max` bytes together.
abbrev pub IsVector {ℓ} : {A : Type ℓ} → ℕ → (A → Type 0) → (A → List ℕ) → List A → Type 0
IsVector max Valid wire items = All Valid items × (length (wires wire items) ≤ max)

module _ {ℓ} {A : Type ℓ} {encode : Encoder A} {decode : Decoder A} {Valid : A → Type 0}
    {wire : A → List ℕ} (law : IsLawful encode decode Valid wire)
    (nonempty : (a : A) → Valid a → 0 < length (wire a)) where
  -- A vector behind one length byte round-trips.
  pub u8_items-IsLawful :
      IsLawful
        (λ items bytes. encode_u8_items encode bytes items)
        (decode_u8_items decode)
        (IsVector 0xff Valid wire)
        (λ items. length (wires wire items) ∷ wires wire items)
  unfolding decode_u8_items
  u8_items-IsLawful = record {
    encodes = λ items bytes v h.
        encode_u8_items_lem law bytes items v.0 (omega arith)
        ∙ rw (le→leb (length (wires wire items)) 0xff v.1);
    decodes = λ items p rest v h.
        let ws = wires wire items in
        rw
          (
            u8-IsLawful.decodes (length ws) p (ws ++ rest) (omega (arith, v.1)) (omega arith),
            decode_items_lem law nonempty items (p + 1) rest v.0 (omega arith),
          )
          (ap (λ (q : ℕ). ok (items, cursor q rest)) {x = p + 1 + length ws} (omega arith));
  }

  module _ (r : ReadBytesExt) where
    -- A vector behind two length bytes round-trips.
    pub u16_items-IsLawful :
        IsLawful
          (λ items bytes. encode_u16_items encode bytes items)
          (decode_u16_items decode r)
          (IsVector 0xffff Valid wire)
          (λ items. be_bytes 2 (length (wires wire items)) ++ wires wire items)
    unfolding decode_u16_items
    u16_items-IsLawful = record {
      encodes = λ items bytes v h.
          let ws = wires wire items in
          let l = length-append (be_bytes 2 (length ws)) ws in
          encode_u16_items_lem law bytes items v.0 (omega (arith, l, length-be_bytes 2 (length ws)))
          ∙ rw (le→leb (length ws) 0xffff v.1);
      decodes = λ items p rest v h.
          let ws = wires wire items in
          let l = length-append (be_bytes 2 (length ws)) ws in
          let n = length-be_bytes 2 (length ws) in
          rw
            (
              append_assoc (be_bytes 2 (length ws)) ws rest,
              (u16-IsLawful r).decodes (length ws) p (ws ++ rest) (omega (arith, v.1))
                  (omega (arith, l)),
              decode_items_lem law nonempty items (p + length (be_bytes 2 (length ws))) rest v.0
                  (omega (arith, l)),
            )
            (ap (λ (q : ℕ). ok (items, cursor q rest))
              {x = p + length (be_bytes 2 (length ws)) + length ws} (omega (arith, l)));
    }

    -- A vector behind three length bytes round-trips.
    pub u24_items-IsLawful :
        IsLawful
          (λ items bytes. encode_u24_items encode bytes items)
          (decode_u24_items decode r)
          (IsVector 0xff_ffff Valid wire)
          (λ items. be_bytes 3 (length (wires wire items)) ++ wires wire items)
    unfolding decode_u24_items
    u24_items-IsLawful = record {
      encodes = λ items bytes v h.
          let ws = wires wire items in
          let l = length-append (be_bytes 3 (length ws)) ws in
          encode_u24_items_lem law bytes items v.0 (omega (arith, l, length-be_bytes 3 (length ws)))
          ∙ rw (le→leb (length ws) 0xff_ffff v.1);
      decodes = λ items p rest v h.
          let ws = wires wire items in
          let l = length-append (be_bytes 3 (length ws)) ws in
          rw
            (
              append_assoc (be_bytes 3 (length ws)) ws rest,
              (u24-IsLawful r).decodes (length ws) p (ws ++ rest) (omega (arith, v.1))
                  (omega (arith, l)),
              decode_items_lem law nonempty items (p + length (be_bytes 3 (length ws))) rest v.0
                  (omega (arith, l)),
            )
            (ap (λ (q : ℕ). ok (items, cursor q rest))
              {x = p + length (be_bytes 3 (length ws)) + length ws} (omega (arith, l)));
    }
