-- ===== src/Field/Codec.antt =====
-- The codec of field elements in src/field.rs is lawful and canonical.
use libprio_rs.Common.{
  ℕ, ◌+◌, ◌-◌, ◌^◌, ◌≤◌, ◌<◌, ◌≡◌, refl, sym, ap, ◌∙◌, List, [], ◌++◌, arith, length, All, ltb, leb,
  lt→ltb, le→leb, ltb→lt, lt→leb, Bool-cases, ◌⊎◌, inl, inr, true, false, take, drop, All-take,
  take-append-drop, leb→le, length-take,
}
use libprio_rs.Common.Bits.{bit_and-ones}
use libprio_rs.Outcome.{ok, err}
use libprio_rs.Codec.{modulus_overflow, other, io, Cursor, cursor, get_decoded}
use libprio_rs.Codec.Lawful.{IsLawful, get_decoded_lem}
use libprio_rs.Codec.Ints.{read_exact-append}
use libprio_rs.Fp.{montgomery, residue}
use libprio_rs.Fp.Element.{
  IsParameters, residue-lt, montgomery-residue, residue-montgomery, montgomery_reduced,
}
use libprio_rs.Fp.Params.{
  fp32-IsParameters, fp64-IsParameters, fp96-IsParameters, fp128-IsParameters,
}
use libprio_rs.Field.{
  FieldType, load_loop, try_from_bytes, to_bytes, encode, decode, field32, field_priov2, field64,
  field96, field128,
}
use libprio_rs.Field.Bytes.{
  wire_of, length-wire_of, store_loop_lem, load_loop-wire_of, load_loop-inverse,
}
use mathlib.Core.Path.{ap₂}
use native.Mathlib.Nat.{mod-eq_of_lt, pow-le-pow_right}

-- What the encodings rely on: the modulus fits the encoding and the integer type.
pub record IsFieldType (f : FieldType) : Type 0 where
  pub parameters : IsParameters f.fp
  pub p_lt_word : f.fp.p < 2 ^ 128
  pub size_pos : 0 < f.encoded_size
  pub size_le : f.encoded_size ≤ 16
  pub p_lt : f.fp.p < 256 ^ f.encoded_size
  pub p_lt_int : f.fp.p < 2 ^ f.int_bits

pub field32-IsFieldType : IsFieldType field32
field32-IsFieldType = record {
  parameters = fp32-IsParameters;
  p_lt_word = omega arith;
  size_pos = omega arith;
  size_le = omega arith;
  p_lt = omega arith;
  p_lt_int = omega arith;
}

pub field_priov2-IsFieldType : IsFieldType field_priov2
field_priov2-IsFieldType = record {
  parameters = fp32-IsParameters;
  p_lt_word = omega arith;
  size_pos = omega arith;
  size_le = omega arith;
  p_lt = omega arith;
  p_lt_int = omega arith;
}

pub field64-IsFieldType : IsFieldType field64
field64-IsFieldType = record {
  parameters = fp64-IsParameters;
  p_lt_word = omega arith;
  size_pos = omega arith;
  size_le = omega arith;
  p_lt = omega arith;
  p_lt_int = omega arith;
}

pub field96-IsFieldType : IsFieldType field96
field96-IsFieldType = record {
  parameters = fp96-IsParameters;
  p_lt_word = omega arith;
  size_pos = omega arith;
  size_le = omega arith;
  p_lt = omega arith;
  p_lt_int = omega arith;
}

pub field128-IsFieldType : IsFieldType field128
field128-IsFieldType = record {
  parameters = fp128-IsParameters;
  p_lt_word = omega arith;
  size_pos = omega arith;
  size_le = omega arith;
  p_lt = omega arith;
  p_lt_int = omega arith;
}

module _ (f : FieldType) (ok_f : IsFieldType f) where
  open f use {fp, encoded_size}

  -- The encoding of an element: the bytes of its residue.
  abbrev pub wire : ℕ → List ℕ
  wire x = wire_of f ok_f.size_le (residue fp x)

  pub length-wire : (x : ℕ) → length (wire x) ≡ encoded_size
  length-wire x = length-wire_of f ok_f.size_le (residue fp x)

  pub to_bytes_lem : (x : ℕ) → to_bytes f x ≡ wire x
  unfolding to_bytes
  to_bytes_lem x = store_loop_lem f ok_f.size_le (residue fp x)

  -- `try_from_bytes` with every bit kept, by the integer in the bytes.
  pub try_from_bytes_lem :
      (bytes : List ℕ) (v : ℕ)
      → encoded_size ≤ length bytes
      → v < 2 ^ 128
      → load_loop f bytes encoded_size ≡ ok v
      → try_from_bytes f bytes (2 ^ 128 - 1)
        ≡ elim (ltb v fp.p) [ true ↦ ok (montgomery fp v) | false ↦ err modulus_overflow ]
  unfolding try_from_bytes
  try_from_bytes_lem bytes v len hv e =
      rw (le→leb encoded_size (length bytes) len, e, bit_and-ones 128 v, mod-eq_of_lt hv)
        (elim (Bool-cases (ltb v fp.p)) [ inl q ↦ rw q refl | inr q ↦ rw q refl ])

  -- `decode` of an encoding's bytes, by the integer in them.
  decode_lem :
      (v p : ℕ) (bs rest : List ℕ)
      → length bs ≡ encoded_size
      → v < 256 ^ encoded_size
      → load_loop f bs encoded_size ≡ ok v
      → decode f (cursor p (bs ++ rest)) ≡ elim (ltb v fp.p) [
        | true ↦ ok (montgomery fp v, cursor (p + encoded_size) rest)
        | false ↦ err (other modulus_overflow)
      ]
  unfolding decode
  decode_lem v p bs rest len hv e =
      let word : v < 2 ^ 128 = omega (
        arith,
        pow-le-pow_right {n = 256} (omega arith) {i = encoded_size} {j = 16} ok_f.size_le,
      ) in
      let front = read_exact-append bs p rest in
      rw (← len) (
        rw front (
          rw (len, try_from_bytes_lem bs v (omega arith) word e)
            (elim (Bool-cases (ltb v fp.p)) [ inl q ↦ rw q refl | inr q ↦ rw q refl ])))

  pub element-IsLawful : IsLawful (encode f) (decode f) (λ x. x < fp.p) wire
  unfolding encode
  element-IsLawful = record {
    encodes = λ x bytes v h. ap (λ (t : List ℕ). ok (bytes ++ t)) (to_bytes_lem x);
    decodes = λ x p rest v h.
        let below = residue-lt fp ok_f.parameters x v in
        rw (length-wire x) (
          decode_lem (residue fp x) p (wire x) rest (length-wire x) (omega (arith, ok_f.p_lt))
            (load_loop-wire_of f ok_f.size_le (residue fp x) (omega (arith, ok_f.p_lt)))
          ∙ rw (lt→ltb _ _ below, montgomery-residue fp ok_f.parameters x v) refl);
  }

  -- Any bytes of an encoding's length decode to the one element that they encode, or overflow.
  decode_bytes :
      (p : ℕ) (bs rest : List ℕ)
      → length bs ≡ encoded_size
      → All (λ b. b < 256) bs
      → ((x : ℕ) × (x < fp.p)
          × (bs ≡ wire x)
          × (decode f (cursor p (bs ++ rest)) ≡ ok (x, cursor (p + encoded_size) rest)))
        ⊎ (decode f (cursor p (bs ++ rest)) ≡ err (other modulus_overflow))
  decode_bytes p bs rest len h =
      let (v, hv, e, back) = load_loop-inverse f ok_f.size_le bs len h in
      let d = decode_lem v p bs rest len hv e in
      elim (Bool-cases (ltb v fp.p)) [
        | inl q ↦
            let below = ltb→lt v fp.p q in
            let r = residue-montgomery fp ok_f.parameters v below in
            inl (
              montgomery fp v,
              (montgomery_reduced fp ok_f.parameters v below).reduced,
              sym back ∙ ap (wire_of f ok_f.size_le) (sym r),
              d ∙ rw q refl,
            )
        | inr q ↦ inr (d ∙ rw q refl)
      ]

  -- Too few bytes are an error of the reader.
  pub decode_short : (c : Cursor) → length c.unread < encoded_size → decode f c ≡ err io
  unfolding decode
  decode_short c h = rw (lt→leb _ _ h) refl

  -- The same at a cursor that holds enough bytes.
  decode_front :
      (c : Cursor)
      → encoded_size ≤ length c.unread
      → All (λ b. b < 256) c.unread
      → ((x : ℕ) × (x < fp.p)
          × (c.unread ≡ wire x ++ drop encoded_size c.unread)
          × (decode f c ≡ ok (x, cursor (c.position + encoded_size) (drop encoded_size c.unread))))
        ⊎ (decode f c ≡ err (other modulus_overflow))
  decode_front c len h =
      let bs = take encoded_size c.unread in
      let rest = drop encoded_size c.unread in
      let joined : bs ++ rest ≡ c.unread = take-append-drop encoded_size c.unread in
      let whole : decode f (cursor c.position (bs ++ rest)) ≡ decode f c =
        ap (λ (t : List ℕ). decode f (cursor c.position t)) joined in
      elim (decode_bytes c.position bs rest (omega (arith, length-take encoded_size c.unread))
        (All-take (λ b. b < 256) encoded_size c.unread h)) [
          | inl (x, below, e, d) ↦
              inl (x, below, sym joined ∙ ap (λ (t : List ℕ). t ++ rest) e, sym whole ∙ d)
          | inr d ↦ inr (sym whole ∙ d)
        ]

  -- Decoding is canonical: what `decode` accepts is the encoding of the reduced element that it
  -- returns, followed by what it leaves unread. The input consists of bytes.
  pub decode-canonical :
      (c c' : Cursor) (x : ℕ)
      → All (λ b. b < 256) c.unread
      → decode f c ≡ ok (x, c')
      → (x < fp.p) × (c.unread ≡ wire x ++ c'.unread) × (c'.position ≡ c.position + encoded_size)
  decode-canonical c c' x h e = elim (Bool-cases (leb encoded_size (length c.unread))) [
    | inl long ↦ elim (decode_front c (leb→le _ _ long) h) [
      | inl (x₀, below, split, d) ↦
          let same : ok (x₀, cursor (c.position + encoded_size) (drop encoded_size c.unread))
              ≡ ok (x, c') =
            sym d ∙ e in
          let hx : x₀ ≡ x = cc same in
          let hc : cursor (c.position + encoded_size) (drop encoded_size c.unread) ≡ c' = cc same in
          (
            omega (arith, hx),
            split ∙ ap₂ (λ (t : ℕ) (u : Cursor). wire t ++ u.unread) hx hc,
            sym (ap (λ (u : Cursor). u.position) hc),
          )
      | inr d ↦ cc
    ]
    | inr short ↦ let d = decode_short c (ground arith) in cc
  ]

  -- An element round-trips: its encoding has `encoded_size` bytes, is appended to the buffer, and
  -- decodes to the same word, also in front of other bytes and by `get_decoded`.
  pub decode-encode :
      (x p : ℕ) (bytes rest : List ℕ)
      → x < fp.p
      → length bytes < 2 ^ 63
      → p < 2 ^ 63
      → (w : List ℕ) × (length w ≡ encoded_size)
        × (encode f x bytes ≡ ok (bytes ++ w))
        × (decode f (cursor p (w ++ rest)) ≡ ok (x, cursor (p + encoded_size) rest))
        × (get_decoded (decode f) w ≡ ok x)
  decode-encode x p bytes rest h hb hp =
      let len = length-wire x in
      let size = ok_f.size_le in
      (
        wire x,
        len,
        element-IsLawful.encodes x bytes h (omega (arith, len)),
        element-IsLawful.decodes x p rest h (omega (arith, len))
            ∙ ap (λ (k : ℕ). ok (x, cursor (p + k) rest)) len,
        (get_decoded_lem element-IsLawful x [] h (omega (arith, len))).0,
      )
