-- ===== src/Codec/Ints.antt =====
-- The integer codecs are lawful.
use libprio_rs.Common.{
  ℕ, ◌+◌, ◌^◌, ◌<◌, ◌≡◌, refl, sym, ap, ◌∙◌, List, [], ◌∷◌, ◌++◌, length, length-append, arith,
  append-nil, take-append, drop-append, le→leb,
}
use libprio_rs.Common.Digits.{be_bytes, length-be_bytes, from_be-be_bytes}
use libprio_rs.Outcome.{ok}
use libprio_rs.Codec.{
  cursor, ReadBytesExt, read_exact, read_be, decode_u8, decode_u16, decode_u24, decode_u32,
  decode_u64, encode_u8, encode_u16, encode_u24, encode_u32, encode_u64, decode_unit, encode_unit,
}
use libprio_rs.Codec.Lawful.{IsLawful}
use native.Mathlib.Nat.{mod-eq_of_lt}

-- `read_exact` of what stands in front.
pub read_exact-append :
    (bs : List ℕ) (p : ℕ) (rest : List ℕ)
    → read_exact (length bs) (cursor p (bs ++ rest)) ≡ ok (bs, cursor (p + length bs) rest)
read_exact-append bs p rest = rw (
  le→leb (length bs) (length (bs ++ rest)) (omega (arith, length-append bs rest)),
  take-append,
  drop-append,
)

-- A big-endian integer of n bytes, by way of the bytes.
read_be-be_bytes :
    (n v p : ℕ) (rest : List ℕ)
    → v < 256 ^ n
    → read_be n (cursor p (be_bytes n v ++ rest)) ≡ ok (v, cursor (p + n) rest)
read_be-be_bytes n v p rest h =
    ap (λ (k : ℕ). read_be k (cursor p (be_bytes n v ++ rest))) (sym (length-be_bytes n v))
    ∙ rw read_exact-append (rw (from_be-be_bytes, mod-eq_of_lt h, length-be_bytes))

pub unit-IsLawful : IsLawful encode_unit decode_unit (λ _. Unit {0}) (λ _. [])
unfolding encode_unit decode_unit
unit-IsLawful = record {
  encodes = λ a bytes v h. ap ok (sym (append-nil bytes));
  decodes =
      λ a p rest v h. ap (λ (q : ℕ). ok (tt, cursor q rest)) {x = p} {y = p + 0} (omega arith);
}

pub u8-IsLawful : IsLawful encode_u8 decode_u8 (λ v. v < 2 ^ 8) (λ v. v ∷ [])
unfolding encode_u8 decode_u8
u8-IsLawful = record {
  encodes = λ a bytes v h. refl;
  decodes = λ a p rest v h. rw (read_exact-append (a ∷ []) p rest);
}

module _ (r : ReadBytesExt) where
  pub u16-IsLawful : IsLawful encode_u16 (decode_u16 r) (λ v. v < 2 ^ 16) (be_bytes 2)
  unfolding encode_u16 decode_u16
  u16-IsLawful = record {
    encodes = λ a bytes v h. refl;
    decodes =
        λ a p rest v h. r.read_u16_lem _ ∙ rw (length-be_bytes 2 a) (read_be-be_bytes 2 a p rest v);
  }

  pub u24-IsLawful : IsLawful encode_u24 (decode_u24 r) (λ v. v < 2 ^ 24) (be_bytes 3)
  unfolding encode_u24 decode_u24
  u24-IsLawful = record {
    encodes = λ a bytes v h. unfold be_bytes in refl;
    decodes =
        λ a p rest v h. r.read_u24_lem _ ∙ rw (length-be_bytes 3 a) (read_be-be_bytes 3 a p rest v);
  }

  pub u32-IsLawful : IsLawful encode_u32 (decode_u32 r) (λ v. v < 2 ^ 32) (be_bytes 4)
  unfolding encode_u32 decode_u32
  u32-IsLawful = record {
    encodes = λ a bytes v h. refl;
    decodes =
        λ a p rest v h. r.read_u32_lem _ ∙ rw (length-be_bytes 4 a) (read_be-be_bytes 4 a p rest v);
  }

  pub u64-IsLawful : IsLawful encode_u64 (decode_u64 r) (λ v. v < 2 ^ 64) (be_bytes 8)
  unfolding encode_u64 decode_u64
  u64-IsLawful = record {
    encodes = λ a bytes v h. refl;
    decodes =
        λ a p rest v h. r.read_u64_lem _ ∙ rw (length-be_bytes 8 a) (read_be-be_bytes 8 a p rest v);
  }
