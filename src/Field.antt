-- ===== src/Field.antt =====
-- src/field.rs: `make_field!`, the trait `FieldElement` and its byte encodings. An element is the
-- `u128` that the struct wraps.
pub mod Digits
pub mod Bytes
pub mod Codec
pub mod Slices
pub mod Arithmetic
pub mod Elementwise
pub mod Vectors
pub mod Sums
use Prim.Native.Nat.{bit_and, bit_or}
use libprio_rs.Common.{
  ℕ, zero, suc, ◌+◌, ◌-◌, ◌*◌, ◌/◌, ◌%◌, ◌^◌, Bool, true, false, List, [], ◌∷◌, ◌++◌, Option, none,
  some, ltb, leb, ◌==◌, if◌then◌else◌, length, take, drop, set, get_elem?, replicate,
}
use libprio_rs.Common.Words.{shl128, word128}
use libprio_rs.Outcome.{Outcome, ok, err, panicked, diverged, ◌>>=◌, ◌>>◌, guard, map_err}
use libprio_rs.Codec.{
  CodecError, other, FieldError, input_size_mismatch, short_read, modulus_overflow, codec, Cursor,
  Decoder, Encoder, read_exact, get_decoded,
}
use libprio_rs.Fp.{FieldParameters, add, sub, mul, neg, pow, montgomery, residue, inv}
use libprio_rs.Fp.Params.{fp32, fp64, fp96, fp128}
use Prim.Native.Nat.{min}

pub data ByteOrder : Type 0 where
  big_endian little_endian : ByteOrder

-- The arguments of `make_field!`: the parameters, the integer type's width, the encoding's size
-- and its order.
pub record FieldType : Type 0 where
  pub fp : FieldParameters
  pub int_bits : ℕ
  pub encoded_size : ℕ
  pub order : ByteOrder

abbrev pub field32 : FieldType
field32 = record { fp = fp32; int_bits = 32; encoded_size = 4; order = big_endian }

abbrev pub field_priov2 : FieldType
field_priov2 = record { fp = fp32; int_bits = 32; encoded_size = 4; order = little_endian }

abbrev pub field64 : FieldType
field64 = record { fp = fp64; int_bits = 64; encoded_size = 8; order = big_endian }

abbrev pub field96 : FieldType
field96 = record { fp = fp96; int_bits = 128; encoded_size = 12; order = big_endian }

abbrev pub field128 : FieldType
field128 = record { fp = fp128; int_bits = 128; encoded_size = 16; order = big_endian }

-- `xs[i]`, which panics out of range.
abbrev pub index {ℓ} : {E : Type ℓ} → List ℕ → ℕ → Outcome E ℕ
index xs i = elim (get_elem? xs i) [ some x ↦ ok x | none ↦ panicked ]

-- The index of the byte that holds the bits from 8 * i on.
abbrev pub byte_place : ℕ → ByteOrder → ℕ → ℕ
byte_place size little_endian i = i
byte_place size big_endian i = size - i - 1

abbrev pub byte_index : FieldType → ℕ → ℕ
byte_index f i = byte_place f.encoded_size f.order i

-- The integer in the first `n` rounds of the loop of `try_from_bytes`.
unfoldable pub load_loop : FieldType → List ℕ → ℕ → Outcome FieldError ℕ
load_loop f bytes zero = ok 0
load_loop f bytes (suc i) = do
  int ← load_loop f bytes i
  b ← index bytes (byte_index f i)
  ok (bit_or int (shl128 b (i * 8)))

unfoldable pub try_from_bytes : FieldType → List ℕ → ℕ → Outcome FieldError ℕ
try_from_bytes f bytes mask = do
  guard (leb f.encoded_size (length bytes)) short_read
  int ← load_loop f bytes f.encoded_size
  let int' = bit_and int mask
  guard (ltb int' f.fp.p) modulus_overflow
  ok (montgomery f.fp int')

-- The slice after the first `n` rounds of the loop of `From<$elem> for [u8; ENCODED_SIZE]`, whose
-- every index is in range.
unfoldable pub store_loop : FieldType → ℕ → ℕ → List ℕ
store_loop f int zero = replicate f.encoded_size 0
store_loop f int (suc i) =
    set (store_loop f int i) (byte_index f i) (bit_and (int / 2 ^ (i * 8)) 255 % 256)

unfoldable pub to_bytes : FieldType → ℕ → List ℕ
to_bytes f elem = store_loop f (residue f.fp elem) f.encoded_size

-- The operators of an element: `+`, `-`, `*`, negation, `pow` and `inv`, which the forms on
-- references and with assignment call.
module _ (f : FieldType) where
  abbrev pub plus : ℕ → ℕ → ℕ
  plus x y = add f.fp x y

  abbrev pub minus : ℕ → ℕ → ℕ
  minus x y = sub f.fp x y

  abbrev pub times : ℕ → ℕ → ℕ
  times x y = mul f.fp x y

  abbrev pub negate : ℕ → ℕ
  negate x = neg f.fp x

  abbrev pub power : ℕ → ℕ → ℕ
  power x exp = pow f.fp x exp

  abbrev pub inverse : ℕ → ℕ
  inverse x = inv f.fp x

  -- `PartialEq<$int>`
  unfoldable pub eq_integer : ℕ → ℕ → Bool
  eq_integer x n = residue f.fp x == n

module _ (f : FieldType) where
  unfoldable pub try_from : List ℕ → Outcome FieldError ℕ
  try_from bytes = try_from_bytes f bytes (word128 - 1)

  unfoldable pub encode : Encoder ℕ
  encode elem bytes = ok (bytes ++ to_bytes f elem)

  unfoldable pub decode : Decoder ℕ
  decode c = do
    (value, c') ← read_exact f.encoded_size c
    elem ← map_err other (try_from_bytes f value (word128 - 1))
    ok (elem, c')

  unfoldable pub try_from_random : List ℕ → Outcome FieldError ℕ
  try_from_random bytes = try_from_bytes f bytes f.fp.bit_mask

  unfoldable pub eq : ℕ → ℕ → Bool
  eq x y = residue f.fp x == residue f.fp y

  -- `From<$int> for $elem`
  unfoldable pub from_integer : ℕ → ℕ
  from_integer x = montgomery f.fp x

  -- `From<$elem> for $int`, which panics on an integer that its type does not hold.
  unfoldable pub into_integer : ℕ → Outcome ⊥ ℕ
  into_integer x = if ltb (residue f.fp x) (2 ^ f.int_bits) then ok (residue f.fp x) else panicked

  unfoldable pub div : ℕ → ℕ → ℕ
  div x y = times f x (inverse f y)

  unfoldable pub modulus : ℕ
  modulus = f.fp.p % 2 ^ f.int_bits

  unfoldable pub generator_order : Outcome ⊥ ℕ
  generator_order = if ltb f.fp.num_roots f.int_bits then ok (2 ^ f.fp.num_roots) else panicked

  unfoldable pub root : ℕ → Option ℕ
  root l =
      if ltb l (min (length f.fp.roots) (f.fp.num_roots + 1)) then get_elem? f.fp.roots l else none

  unfoldable pub one : Outcome ⊥ ℕ
  one = index f.fp.roots 0

  -- `slice_into_byte_vec`
  unfoldable pub slice_into_byte_vec : List ℕ → List ℕ
  slice_into_byte_vec [] = []
  slice_into_byte_vec (elem ∷ values) = to_bytes f elem ++ slice_into_byte_vec values

  -- The loop of `byte_slice_into_vec` over `n` exact chunks.
  unfoldable pub decode_chunks : ℕ → List ℕ → Outcome FieldError (List ℕ)
  decode_chunks zero bytes = ok []
  decode_chunks (suc n) bytes = do
    elem ← map_err codec (get_decoded decode (take f.encoded_size bytes))
    rest ← decode_chunks n (drop f.encoded_size bytes)
    ok (elem ∷ rest)

  unfoldable pub byte_slice_into_vec : List ℕ → Outcome FieldError (List ℕ)
  byte_slice_into_vec bytes = do
    guard (length bytes % f.encoded_size == 0) short_read
    decode_chunks (length bytes / f.encoded_size) bytes

  -- `a += o` at each place.
  unfoldable pub add_each : List ℕ → List ℕ → List ℕ
  add_each (x ∷ xs) (o ∷ os) = plus f x o ∷ add_each xs os
  add_each [] os = []
  add_each xs [] = xs

  unfoldable pub merge_vector : List ℕ → List ℕ → Outcome FieldError (List ℕ)
  merge_vector accumulator other_vector = do
    guard (length accumulator == length other_vector) input_size_mismatch
    ok (add_each accumulator other_vector)

  -- `x -= y` at each place.
  unfoldable pub sub_each : List ℕ → List ℕ → List ℕ
  sub_each (x ∷ xs) (y ∷ ys) = minus f x y ∷ sub_each xs ys
  sub_each [] ys = []
  sub_each xs [] = xs

  -- The loop of `split_vector`: what is left of the first share, and the shares pushed behind it.
  -- `random k` is what the k-th call of `random_vector` returns.
  unfoldable pub split_loop {ℓ} :
      {E : Type ℓ} → (ℕ → Outcome E (List ℕ)) → ℕ → ℕ → List ℕ → Outcome E (List ℕ × List (List ℕ))
  split_loop random k zero first = ok (first, [])
  split_loop random k (suc n) first = do
    share ← random k
    (first', shares) ← split_loop random (suc k) n (sub_each first share)
    ok (first', share ∷ shares)

  unfoldable pub split_vector {ℓ} :
      {E : Type ℓ} → (ℕ → Outcome E (List ℕ)) → List ℕ → ℕ → Outcome E (List (List ℕ))
  split_vector random inp zero = ok []
  split_vector random inp (suc n) = do
    (first, shares) ← split_loop random 0 n inp
    ok (first ∷ shares)
