-- ===== src/Poplar1/KeyCodec.antt =====
-- The codecs of keys and verification parameters in src/vdaf/poplar1.rs.
use libprio_rs.Common.{
  ℕ, ◌+◌, ◌^◌, ◌≤◌, ◌<◌, ◌≡◌, refl, ap, ◌∙◌, List, [], ◌∷◌, ◌++◌, arith, length, length-append,
  append_assoc, All, Bool, true, false,
}
use libprio_rs.Common.Digits.{be_bytes}
use libprio_rs.Outcome.{ok}
use libprio_rs.Codec.{cursor, ReadBytesExt}
use libprio_rs.Codec.EncodeItems.{wires}
use libprio_rs.Codec.Ints.{u8-IsLawful, u64-IsLawful, read_exact-append}
use libprio_rs.Codec.Lawful.{IsLawful}
use libprio_rs.Codec.Vectors.{u24_items-IsLawful}
use libprio_rs.Field.{FieldType}
use libprio_rs.Field.Codec.{IsFieldType, wire, length-wire, element-IsLawful}
use libprio_rs.Vdaf.{encode_seed, decode_seed}
use libprio_rs.Poplar1.{Poplar1, Poplar1VerifyParam}
use libprio_rs.Poplar1.Toy.{ToyIdpf, encode_toy, decode_toy}
use libprio_rs.Poplar1.Wire.{role_byte, role_of, encode_param, decode_param}

pub read_seed :
    (l p : ℕ) (seed rest : List ℕ)
    → length seed ≡ l
    → decode_seed l (cursor p (seed ++ rest)) ≡ ok (seed, cursor (p + length seed) rest)
unfolding decode_seed
read_seed l p seed rest e = rw (← e) (read_exact-append seed p rest)

-- Three codecs, one after the other.
pub appended : (p : ℕ) (a b c rest : List ℕ) → (a ++ (b ++ c)) ++ rest ≡ a ++ (b ++ (c ++ rest))
appended p a b c rest =
    append_assoc a (b ++ c) rest ∙ ap (λ (t : List ℕ). a ++ t) (append_assoc b c rest)

pub length_three : (a b c : List ℕ) → length (a ++ (b ++ c)) ≡ length a + length b + length c
length_three a b c = omega (arith, length-append a (b ++ c), length-append b c)

-- The verification parameter of an aggregator of this Poplar1.
abbrev pub IsParam : ℕ → Poplar1 → Poplar1VerifyParam → Type 0
IsParam l vdaf param = (length param.rand_init ≡ l) × (param.input_length ≡ vdaf.input_length)

abbrev pub param_wire : Poplar1VerifyParam → List ℕ
param_wire param = param.rand_init ++ (role_byte param.is_leader ∷ [])

role-role_byte : (b : Bool) → (role_byte b < 2 ^ 8) × (role_of (role_byte b) ≡ ok b)
unfolding role_of
role-role_byte true = (omega arith, refl)
role-role_byte false = (omega arith, refl)

pub encode_param-IsLawful :
    (l : ℕ) (vdaf : Poplar1)
    → IsLawful encode_param (decode_param l vdaf) (IsParam l vdaf) param_wire
unfolding encode_param decode_param encode_seed
encode_param-IsLawful l vdaf = record {
  encodes = λ param bytes v h.
      let (byte_lt, back) = role-role_byte param.is_leader in
      let len = length-append param.rand_init (role_byte param.is_leader ∷ []) in
      u8-IsLawful.encodes (role_byte param.is_leader) (bytes ++ param.rand_init) byte_lt
        (omega (arith, len, length-append bytes param.rand_init))
      ∙ ap ok (append_assoc bytes param.rand_init (role_byte param.is_leader ∷ []));
  decodes = λ param p rest v h.
      let byte = role_byte param.is_leader in
      let (byte_lt, back) = role-role_byte param.is_leader in
      let len = length-append param.rand_init (byte ∷ []) in
      rw
        (
          append_assoc param.rand_init (byte ∷ []) rest,
          read_seed l p param.rand_init (byte ∷ rest) (v.0),
          u8-IsLawful.decodes byte (p + length param.rand_init) rest byte_lt (omega (arith, len)),
          back,
          ← v.1,
        )
        (ap (λ (q : ℕ). ok (param, cursor q rest)) {x = p + length param.rand_init + 1}
          {y = p + length (param_wire param)} (omega (arith, len)));
}

module _ (f : FieldType) (ok_f : IsFieldType f) where
  open f use {fp}

  abbrev pub elements_wire : List ℕ → List ℕ
  elements_wire xs = wires (wire f ok_f) xs

  abbrev pub table_wire : List ℕ → List ℕ
  table_wire xs = be_bytes 3 (length (elements_wire xs)) ++ elements_wire xs

  -- A table of reduced elements, whose encodings take at most 2 ^ 24 - 1 bytes.
  abbrev pub IsTable : List ℕ → Type 0
  IsTable xs = All (λ x. x < fp.p) xs × (length (elements_wire xs) ≤ 0xff_ffff)

  abbrev pub IsKey : ToyIdpf → Type 0
  IsKey key = IsTable key.data0 × IsTable key.data1 × (key.level < 2 ^ 64)

  abbrev pub toy_wire : ToyIdpf → List ℕ
  toy_wire key = table_wire key.data0 ++ (table_wire key.data1 ++ be_bytes 8 key.level)

  pub element-nonempty : (x : ℕ) → x < fp.p → 0 < length (wire f ok_f x)
  element-nonempty x h = omega (arith, length-wire f ok_f x, ok_f.size_pos)

  pub toy-IsLawful : (r : ReadBytesExt) → IsLawful (encode_toy f) (decode_toy f r) IsKey toy_wire
  unfolding encode_toy decode_toy
  toy-IsLawful r =
      let vector = u24_items-IsLawful (element-IsLawful f ok_f) element-nonempty r in
      record {
        encodes = λ key bytes v h.
            let a = table_wire key.data0 in
            let b = table_wire key.data1 in
            let c = be_bytes 8 key.level in
            let len = length_three a b c in
            rw
              (
                vector.encodes key.data0 bytes (v.0) (omega (arith, len)),
                vector.encodes key.data1 (bytes ++ a) (v.1)
                    (omega (arith, len, length-append bytes a)),
                (u64-IsLawful r).encodes key.level ((bytes ++ a) ++ b) (v.2)
                    (omega (arith, len, length-append bytes a, length-append (bytes ++ a) b)),
              )
              (ap ok (append_assoc (bytes ++ a) b c ∙ append_assoc bytes a (b ++ c)));
        decodes = λ key p rest v h.
            let a = table_wire key.data0 in
            let b = table_wire key.data1 in
            let c = be_bytes 8 key.level in
            let len = length_three a b c in
            rw
              (
                appended p a b c rest,
                vector.decodes key.data0 p (b ++ (c ++ rest)) (v.0) (omega (arith, len)),
                vector.decodes key.data1 (p + length a) (c ++ rest) (v.1) (omega (arith, len)),
                (u64-IsLawful r).decodes key.level (p + length a + length b) rest (v.2)
                    (omega (arith, len)),
              )
              (ap (λ (q : ℕ). ok (key, cursor q rest)) {x = p + length a + length b + length c}
                {y = p + length (toy_wire key)} (omega (arith, len)));
      }
