-- ===== src/Codec/DecodeItems.antt =====
-- The decoders of vectors: what they read back, that they end, and where they stop.
use libprio_rs.Common.{
  ℕ, zero, suc, ◌+◌, ◌^◌, ◌≤◌, ◌<◌, ◌≡◌, ap, ◌∙◌, List, [], ◌∷◌, ◌++◌, length, length-append,
  append_assoc, append-nil, arith, take-append, drop-append, lt→ltb, le→ltb, lt→leb, All,
}
use native.Mathlib.Nat.{mod-eq_of_lt}
use libprio_rs.Outcome.{ok}
use libprio_rs.Codec.{cursor, Decoder, Encoder}
use libprio_rs.Codec.Items.{decode_loop, decode_items, is_too_big, move_on}
use libprio_rs.Codec.EncodeItems.{wires}
use libprio_rs.Codec.Lawful.{IsLawful}

module _ {ℓ} {A : Type ℓ} {encode : Encoder A} {decode : Decoder A} {Valid : A → Type 0}
    {wire : A → List ℕ} (law : IsLawful encode decode Valid wire) where
  module _ (nonempty : (a : A) → Valid a → 0 < length (wire a)) where
    length-le-wires : (items : List A) → All Valid items → length items ≤ length (wires wire items)
    length-le-wires [] v = omega arith
    length-le-wires (a ∷ items) (va, v) =
        omega
          (arith, length-append (wire a) (wires wire items), nonempty a va, length-le-wires items v)

    -- The loop reads the items back and ends by its test.
    decode_loop_lem :
        (items : List A) (fuel len p : ℕ) (decoded : List A)
        → All Valid items
        → length items < fuel
        → len ≡ p + length (wires wire items)
        → len < 2 ^ 64
        → decode_loop decode fuel len (cursor p (wires wire items)) decoded
          ≡ ok (decoded ++ items, cursor len [])
    unfolding decode_loop
    decode_loop_lem items zero len p decoded v f e h = absurd (omega arith)
    decode_loop_lem [] (suc fuel) len p decoded v f e h =
        let stop : len ≡ p = omega arith in rw (le→ltb p len (omega arith), append-nil, stop)
    decode_loop_lem (a ∷ items) (suc fuel) len p decoded (va, v) f e h =
        let l = length-append (wire a) (wires wire items) in
        rw
          (
            lt→ltb p len (omega (arith, l, nonempty a va)),
            law.decodes a p (wires wire items) va (omega (arith, l)),
          )
          (decode_loop_lem items fuel len (p + length (wire a)) (decoded ++ (a ∷ [])) v
              (omega arith) (omega (arith, l)) h
            ∙ ap (λ (t : List A). ok (t, cursor len [])) (append_assoc decoded (a ∷ []) items))

    pub decode_items_lem :
        (items : List A) (p : ℕ) (rest : List ℕ)
        → All Valid items
        → p + length (wires wire items) < 2 ^ 64
        → decode_items decode (length (wires wire items)) (cursor p (wires wire items ++ rest))
          ≡ ok (items, cursor (p + length (wires wire items)) rest)
    unfolding decode_items is_too_big move_on
    decode_items_lem items p rest v h =
        let ws = wires wire items in
        let l = length-append ws rest in
        rw (
          lt→leb (2 ^ 64) (p + length ws) h,
          mod-eq_of_lt {n = p + length ws} {m = 2 ^ 64} h,
          le→ltb (p + length (ws ++ rest)) (p + length ws) (omega (arith, l)),
          take-append,
          decode_loop_lem items (length ws + 1) (length ws) 0 [] v
              (omega (arith, length-le-wires items v)) (omega arith) (omega arith),
          drop-append,
        )
