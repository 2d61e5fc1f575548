-- ===== src/Poplar1/SetCodec.antt =====
-- The codec of inputs and of sets of inputs in src/vdaf/poplar1.rs.
use libprio_rs.Common.{
  ℕ, ◌+◌, ◌^◌, ◌≤◌, ◌<◌, ◌≡◌, refl, ap, ◌∙◌, List, [], ◌++◌, arith, length, length-append,
  append_assoc, All,
}
use libprio_rs.Common.Digits.{be_bytes, length-be_bytes}
use libprio_rs.Outcome.{ok, >>=-eq-ok}
use libprio_rs.Codec.{Cursor, cursor, ReadBytesExt, get_encoded, get_decoded}
use libprio_rs.Codec.EncodeItems.{wires}
use libprio_rs.Codec.Ints.{u64-IsLawful}
use libprio_rs.Codec.Items.{decode_u24_items}
use libprio_rs.Codec.Lawful.{IsLawful, get_encoded_lem, get_decoded_lem}
use libprio_rs.Codec.Vectors.{IsVector, u24_items-IsLawful}
use libprio_rs.Poplar1.{IdpfInput}
use libprio_rs.Poplar1.Input.{from_iter, encode_input, decode_input, encode_inputs, decode_inputs}
use libprio_rs.Poplar1.Ordered.{IsOrdered, from_iter-ordered, from_iter-IsOrdered}
use mathlib.Core.Path.{subst}

-- Index and level are each a `u64`.
abbrev pub IsWord : IdpfInput → Type 0
IsWord x = (x.index < 2 ^ 64) × (x.level < 2 ^ 64)

abbrev pub input_wire : IdpfInput → List ℕ
input_wire x = be_bytes 8 x.index ++ be_bytes 8 x.level

-- The encoding of a set: three bytes of length and the inputs in their order.
abbrev pub inputs_wire : List IdpfInput → List ℕ
inputs_wire xs = be_bytes 3 (length (wires input_wire xs)) ++ wires input_wire xs

module _ (r : ReadBytesExt) where
  pub input-IsLawful : IsLawful encode_input (decode_input r) IsWord input_wire
  unfolding encode_input decode_input
  input-IsLawful = record {
    encodes = λ x bytes v h.
        let l = length-append (be_bytes 8 x.index) (be_bytes 8 x.level) in
        rw ((u64-IsLawful r).encodes x.index bytes (v.0) (omega (arith, l))) (
          (u64-IsLawful r).encodes x.level (bytes ++ be_bytes 8 x.index) (v.1)
            (omega (arith, l, length-append bytes (be_bytes 8 x.index)))
          ∙ ap ok (append_assoc bytes (be_bytes 8 x.index) (be_bytes 8 x.level)));
    decodes = λ x p rest v h.
        let l = length-append (be_bytes 8 x.index) (be_bytes 8 x.level) in
        rw
          (
            append_assoc (be_bytes 8 x.index) (be_bytes 8 x.level) rest,
            (u64-IsLawful r).decodes x.index p (be_bytes 8 x.level ++ rest) (v.0)
                (omega (arith, l)),
            (u64-IsLawful r).decodes x.level (p + length (be_bytes 8 x.index)) rest (v.1)
                (omega (arith, l)),
          )
          (ap (λ (q : ℕ). ok (x, cursor q rest))
            {x = p + length (be_bytes 8 x.index) + length (be_bytes 8 x.level)}
            {y = p + length (input_wire x)} (omega (arith, l)));
  }

  input-nonempty : (x : IdpfInput) → IsWord x → 0 < length (input_wire x)
  input-nonempty x v =
      omega
        (arith, length-append (be_bytes 8 x.index) (be_bytes 8 x.level), length-be_bytes 8 x.index)

  pub inputs-IsLawful :
      IsLawful encode_inputs
        (decode_inputs r)
        (λ xs. IsVector 0xff_ffff IsWord input_wire xs × IsOrdered xs)
        inputs_wire
  unfolding encode_inputs decode_inputs
  inputs-IsLawful =
      let vector = u24_items-IsLawful input-IsLawful input-nonempty r in
      record {
        encodes = λ xs bytes v h. vector.encodes xs bytes (v.0) h;
        decodes =
            λ xs p rest v h. rw (vector.decodes xs p rest (v.0) h, from_iter-ordered xs (v.1)) refl;
      }

  -- A set of inputs, of words and with at most 2 ^ 24 - 1 bytes of encodings, encodes as a whole
  -- buffer that decodes to the same set. And whatever a cursor holds, where it decodes to a set, that
  -- set is in its order and holds no input twice.
  pub inputs-round_trip :
      (xs ys : List IdpfInput) (c c' : Cursor)
      → All IsWord xs
      → length (wires input_wire xs) ≤ 0xff_ffff
      → IsOrdered xs
      → decode_inputs r c ≡ ok (ys, c')
      → (get_encoded encode_inputs xs ≡ ok (inputs_wire xs))
        × (get_decoded (decode_inputs r) (inputs_wire xs) ≡ ok xs)
        × IsOrdered ys
  unfolding decode_inputs
  inputs-round_trip xs ys c c' v fits order e =
      let l = length-append (be_bytes 3 (length (wires input_wire xs))) (wires input_wire xs) in
      let short : length (inputs_wire xs) < 2 ^ 64 =
        omega (arith, l, length-be_bytes 3 (length (wires input_wire xs))) in
      let ((items, c''), read, last) = >>=-eq-ok (decode_u24_items (decode_input r) r c) _ e in
      let same : from_iter [] items ≡ ys = cc last in
      (
        get_encoded_lem inputs-IsLawful xs ((v, fits), order) short,
        (get_decoded_lem inputs-IsLawful xs [] ((v, fits), order) short).0,
        subst IsOrdered same (from_iter-IsOrdered [] items tt),
      )
