-- ===== src/Poplar1/Input.antt =====
-- `IdpfInput` in src/vdaf/poplar1.rs, and the sets of inputs: a `BTreeSet` is the list of its elements
-- in their order.
use Prim.Native.Nat.{bit_and, bit_or, compare, Ordering}
use libprio_rs.Common.{
  ℕ, zero, suc, ◌+◌, ◌-◌, ◌*◌, ◌/◌, ◌%◌, ◌^◌, List, [], ◌∷◌, ltb, leb, if◌then◌else◌, length,
}
use libprio_rs.Common.Words.{usize_word}
use libprio_rs.Outcome.{Outcome, ok, ◌>>=◌, ◌>>◌, guard}
use libprio_rs.Codec.{Decoder, Encoder, ReadBytesExt, encode_u64, decode_u64}
use libprio_rs.Codec.Items.{encode_u24_items, decode_u24_items}
use libprio_rs.Vdaf.{VdafError, uncategorized, bit_length_exceeds_data}
use libprio_rs.Poplar1.{IdpfInput, usize_shl}

-- `if i < level { index |= (bit as usize) << i; }`
unfoldable pub put_bit {ℓ} : {E : Type ℓ} → (level i bit index : ℕ) → Outcome E ℕ
put_bit level i bit index =
    if ltb i level then (do shifted ← usize_shl bit i; ok (bit_or index shifted)) else ok index

-- The loop over the bits of a byte, of which `n` are left.
unfoldable pub read_byte {ℓ} : {E : Type ℓ} → (level byte i j n index : ℕ) → Outcome E ℕ
read_byte level byte i j zero index = ok index
read_byte level byte i j (suc n) index = do
  index' ← put_bit level i (bit_and (byte / 2 ^ j) 1) index
  read_byte level byte (i + 1) (j + 1) n index'

-- The loop over the data, whose first bit is the i-th.
unfoldable pub read_bits {ℓ} : {E : Type ℓ} → (level i index : ℕ) → List ℕ → Outcome E ℕ
read_bits level i index [] = ok index
read_bits level i index (byte ∷ data_bytes) = do
  index' ← read_byte level byte i 0 8 index
  read_bits level (i + 8) index' data_bytes

-- `IdpfInput::new`
unfoldable pub input_new : List ℕ → ℕ → Outcome VdafError IdpfInput
input_new data_bytes level = do
  guard (leb level (length data_bytes * 2 ^ 3 % usize_word))
      (uncategorized (bit_length_exceeds_data level (length data_bytes)))
  index ← read_bits level 0 0 data_bytes
  ok (record { index = index; level = level })

unfoldable pub prefix {ℓ} : {E : Type ℓ} → IdpfInput → ℕ → Outcome E IdpfInput
prefix self level = do
  ones ← usize_shl 1 level
  ok (record { index = bit_and self.index (ones - 1); level = level })

unfoldable pub data_index {ℓ} : {E : Type ℓ} → IdpfInput → Outcome E ℕ
data_index self = do top ← usize_shl 1 self.level; ok (bit_or self.index top)

-- `Ord::cmp`
unfoldable pub cmp : IdpfInput → IdpfInput → Ordering
cmp self other = elim (compare self.level other.level) [
  | Ordering.eq ↦ compare self.index other.index
  | Ordering.lt ↦ Ordering.lt
  | Ordering.gt ↦ Ordering.gt
]

-- `BTreeSet::insert`
unfoldable pub insert : IdpfInput → List IdpfInput → List IdpfInput
insert x [] = x ∷ []
insert x (y ∷ ys) = elim (cmp x y) [
  | Ordering.lt ↦ x ∷ y ∷ ys
  | Ordering.eq ↦ y ∷ ys
  | Ordering.gt ↦ y ∷ insert x ys
]

-- `BTreeSet::from_iter`, behind the elements that are in the set already.
unfoldable pub from_iter : List IdpfInput → List IdpfInput → List IdpfInput
from_iter inputs [] = inputs
from_iter inputs (x ∷ xs) = from_iter (insert x inputs) xs

unfoldable pub encode_input : Encoder IdpfInput
encode_input self bytes = do bytes' ← encode_u64 self.index bytes; encode_u64 self.level bytes'

unfoldable pub decode_input : ReadBytesExt → Decoder IdpfInput
decode_input r c = do
  (index, c') ← decode_u64 r c
  (level, c'') ← decode_u64 r c'
  ok (record { index = index; level = level }, c'')

-- The codec of a `BTreeSet<IdpfInput>`.
unfoldable pub encode_inputs : Encoder (List IdpfInput)
encode_inputs self bytes = encode_u24_items encode_input bytes self

unfoldable pub decode_inputs : ReadBytesExt → Decoder (List IdpfInput)
decode_inputs r c = do
  (inputs, c') ← decode_u24_items (decode_input r) r c
  ok (from_iter [] inputs, c')
