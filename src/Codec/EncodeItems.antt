-- ===== src/Codec/EncodeItems.antt =====
-- What the encoders of vectors write.
use libprio_rs.Common.{
  ℕ, ◌+◌, ◌^◌, ◌<◌, ◌≡◌, refl, sym, ap, ◌∙◌, List, [], ◌∷◌, ◌++◌, length, length-append,
  append_assoc, append-nil, arith, drop, set, leb, if◌then◌else◌, All, Bool-cases, inl, inr,
}
use libprio_rs.Common.Digits.{be_bytes, length-be_bytes}
use libprio_rs.Common.Words.{usize_sub}
use native.Mathlib.Nat.{mod-eq_of_lt}
use libprio_rs.Outcome.{ok, panicked}
use libprio_rs.Codec.{Decoder, Encoder}
use libprio_rs.Codec.Items.{
  write_at, encode_all, encode_u8_items, encode_u16_items, encode_u24_items,
}
use libprio_rs.Codec.Lawful.{IsLawful}

-- The encodings of the items, one after the other.
abbrev pub wires {ℓ} : {A : Type ℓ} → (A → List ℕ) → List A → List ℕ
wires wire [] = []
wires wire (a ∷ items) = wire a ++ wires wire items

set-append :
    (xs : List ℕ) (o b : ℕ) (zs : List ℕ) → set (xs ++ (o ∷ zs)) (length xs) b ≡ xs ++ (b ∷ zs)
set-append [] o b zs = refl
set-append (x ∷ xs) o b zs = ap (λ (t : List ℕ). x ∷ t) (set-append xs o b zs)

write_at-append :
    (bs xs old ys : List ℕ)
    → length old ≡ length bs
    → write_at (xs ++ (old ++ ys)) (length xs) bs ≡ xs ++ (bs ++ ys)
unfolding write_at
write_at-append [] xs [] ys h = refl
write_at-append [] xs (o ∷ old) ys h = absurd (omega arith)
write_at-append (b ∷ bs) xs [] ys h = absurd (omega arith)
write_at-append (b ∷ bs) xs (o ∷ old) ys h =
    let next : length (xs ++ (b ∷ [])) ≡ length xs + 1 = length-append xs (b ∷ []) ∙ omega arith in
    rw (set-append xs o b (old ++ ys), ← next)
      (ap (λ (t : List ℕ). write_at t (length (xs ++ (b ∷ []))) bs)
          (sym (append_assoc xs (b ∷ []) (old ++ ys)))
        ∙ write_at-append bs (xs ++ (b ∷ [])) old ys (omega arith)
        ∙ append_assoc xs (b ∷ []) (bs ++ ys))

-- The payload's length, as the encoders compute it from the buffer's.
payload_len :
    (n : ℕ) (bytes pre ws : List ℕ)
    → length pre ≡ n
    → length bytes + n + length ws < 2 ^ 64
    → usize_sub (usize_sub (length ((bytes ++ pre) ++ ws)) (length bytes)) n ≡ length ws
payload_len n bytes pre ws e h =
    omega (arith, length-append (bytes ++ pre) ws, length-append bytes pre)

-- The reserved bytes are overwritten by the length.
patched :
    (bytes pre ws bs : List ℕ)
    → length pre ≡ length bs
    → write_at ((bytes ++ pre) ++ ws) (length bytes) bs ≡ bytes ++ (bs ++ ws)
patched bytes pre ws bs h =
    ap (λ (t : List ℕ). write_at t (length bytes) bs) (append_assoc bytes pre ws)
    ∙ write_at-append bs bytes pre ws h

low_three : (v : ℕ) → drop 1 (be_bytes 4 v) ≡ be_bytes 3 v
unfolding be_bytes
low_three v = refl

module _ {ℓ} {A : Type ℓ} {encode : Encoder A} {decode : Decoder A} {Valid : A → Type 0}
    {wire : A → List ℕ} (law : IsLawful encode decode Valid wire) where
  pub encode_all_lem :
      (items : List A) (bytes : List ℕ)
      → All Valid items
      → length bytes + length (wires wire items) < 2 ^ 64
      → encode_all encode items bytes ≡ ok (bytes ++ wires wire items)
  unfolding encode_all
  encode_all_lem [] bytes v h = ap ok (sym (append-nil bytes))
  encode_all_lem (a ∷ items) bytes (va, v) h =
      let l = length-append (wire a) (wires wire items) in
      rw (law.encodes a bytes va (omega (arith, l))) (
        encode_all_lem items (bytes ++ wire a) v (omega (arith, l, length-append bytes (wire a)))
        ∙ ap ok (append_assoc bytes (wire a) (wires wire items)))

  pub encode_u8_items_lem :
      (bytes : List ℕ) (items : List A)
      → All Valid items
      → length bytes + 1 + length (wires wire items) < 2 ^ 64
      → encode_u8_items encode bytes items ≡ (
          if leb (length (wires wire items)) 0xff
          then ok (bytes ++ (length (wires wire items) ∷ wires wire items))
          else panicked)
  unfolding encode_u8_items
  encode_u8_items_lem bytes items v h =
      let ws = wires wire items in
      let whole =
        encode_all_lem items (bytes ++ (0 ∷ [])) v (omega (arith, length-append bytes (0 ∷ []))) in
      let len = payload_len 1 bytes (0 ∷ []) ws refl (omega arith) in
      rw (whole, len)
        (elim (Bool-cases (leb (length ws) 0xff)) [
          | inl fits ↦
              rw
                (
                  fits,
                  mod-eq_of_lt {n = length ws} {m = 2 ^ 8} (ground arith),
                  append_assoc bytes (0 ∷ []) ws,
                )
                (ap ok (set-append bytes 0 (length ws) ws))
          | inr long ↦ rw long
        ])

  pub encode_u16_items_lem :
      (bytes : List ℕ) (items : List A)
      → All Valid items
      → length bytes + 2 + length (wires wire items) < 2 ^ 64
      → encode_u16_items encode bytes items ≡ (
          if leb (length (wires wire items)) 0xffff
          then ok (bytes ++ (be_bytes 2 (length (wires wire items)) ++ wires wire items))
          else panicked)
  unfolding encode_u16_items
  encode_u16_items_lem bytes items v h =
      let ws = wires wire items in
      let pre = be_bytes 2 0 in
      let two = length-be_bytes 2 0 in
      let whole =
        encode_all_lem items (bytes ++ pre) v (omega (arith, length-append bytes pre, two)) in
      let len = payload_len 2 bytes pre ws two (omega arith) in
      rw (whole, len)
        (elim (Bool-cases (leb (length ws) 0xffff)) [
          | inl fits ↦
              rw (fits, mod-eq_of_lt {n = length ws} {m = 2 ^ 16} (ground arith))
                (ap ok
                  (patched bytes pre ws (be_bytes 2 (length ws)) (two ∙ sym (length-be_bytes 2 _))))
          | inr long ↦ rw long
        ])

  pub encode_u24_items_lem :
      (bytes : List ℕ) (items : List A)
      → All Valid items
      → length bytes + 3 + length (wires wire items) < 2 ^ 64
      → encode_u24_items encode bytes items ≡ (
          if leb (length (wires wire items)) 0xff_ffff
          then ok (bytes ++ (be_bytes 3 (length (wires wire items)) ++ wires wire items))
          else panicked)
  unfolding encode_u24_items
  encode_u24_items_lem bytes items v h =
      let ws = wires wire items in
      let pre = be_bytes 3 0 in
      let three = length-be_bytes 3 0 in
      let whole =
        encode_all_lem items (bytes ++ pre) v (omega (arith, length-append bytes pre, three)) in
      let len = payload_len 3 bytes pre ws three (omega arith) in
      rw (low_three 0, whole, len)
        (elim (Bool-cases (leb (length ws) 0xff_ffff)) [
          | inl fits ↦
              rw
                (
                  fits,
                  mod-eq_of_lt {n = length ws} {m = 2 ^ 32} (ground arith),
                  low_three (length ws),
                )
                (ap ok (
                  patched bytes pre ws (be_bytes 3 (length ws))
                    (three ∙ sym (length-be_bytes 3 _))))
          | inr long ↦ rw long
        ])

  -- The encoders of vectors, on items that are valid for a lawful codec, append a length of one, two
  -- or three bytes and the items' encodings, and panic exactly where the encodings take more than
  -- 2 ^ 8 - 1, 2 ^ 16 - 1 or 2 ^ 24 - 1 bytes. The buffer with what is appended has less than 2 ^ 64
  -- bytes.
  pub encode_items_lem :
      (bytes : List ℕ) (items : List A)
      → All Valid items
      → length bytes + 3 + length (wires wire items) < 2 ^ 64
      → (encode_u8_items encode bytes items ≡ (
          if leb (length (wires wire items)) 0xff
          then ok (bytes ++ (length (wires wire items) ∷ wires wire items))
          else panicked))
        × (encode_u16_items encode bytes items ≡ (
            if leb (length (wires wire items)) 0xffff
            then ok (bytes ++ (be_bytes 2 (length (wires wire items)) ++ wires wire items))
            else panicked))
        × (encode_u24_items encode bytes items ≡ (
            if leb (length (wires wire items)) 0xff_ffff
            then ok (bytes ++ (be_bytes 3 (length (wires wire items)) ++ wires wire items))
            else panicked))
  encode_items_lem bytes items v h = (
    encode_u8_items_lem bytes items v (omega arith),
    encode_u16_items_lem bytes items v (omega arith),
    encode_u24_items_lem bytes items v h,
  )
