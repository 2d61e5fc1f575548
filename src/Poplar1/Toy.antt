-- ===== src/Poplar1/Toy.antt =====
-- `ToyIdpf` in src/vdaf/poplar1.rs: an incremental distributed point function by look-up tables.
use libprio_rs.Common.{
  ℕ, zero, suc, ◌*◌, ◌/◌, List, [], ◌∷◌, ltb, leb, if◌then◌else◌, length, set, replicate,
}
use libprio_rs.Outcome.{Outcome, ok, panicked, ◌>>=◌, ◌>>◌, guard}
use libprio_rs.Codec.{Decoder, Encoder, ReadBytesExt, encode_u64, decode_u64}
use libprio_rs.Codec.Items.{encode_u24_items, decode_u24_items}
use libprio_rs.Fp.{log2}
use libprio_rs.Field.{FieldType, index, encode, decode, split_vector}
use libprio_rs.Vdaf.{VdafError, uncategorized, input_too_long, prefix_too_long}
use libprio_rs.Poplar1.{IdpfInput, Idpf, usize_add, usize_shl}
use libprio_rs.Poplar1.Input.{prefix, data_index}

pub record ToyIdpf : Type 0 where
  pub data0 : List ℕ
  pub data1 : List ℕ
  pub level : ℕ

abbrev pub max_data_bytes : ℕ
max_data_bytes = 1024 * 1024

-- `data[i] = v`, which panics out of range.
abbrev pub store {ℓ} : {E : Type ℓ} → List ℕ → ℕ → ℕ → Outcome E (List ℕ)
store xs i v = if ltb i (length xs) then ok (set xs i v) else panicked

-- `values.next().unwrap()`
abbrev pub next_value {ℓ} : {E : Type ℓ} → List (ℕ × ℕ) → Outcome E ((ℕ × ℕ) × List (ℕ × ℕ))
next_value [] = panicked
next_value (v ∷ values) = ok (v, values)

-- The two shares of `split_vector`.
unfoldable pub two_shares {ℓ} : {E : Type ℓ} → List (List ℕ) → Outcome E (List ℕ × List ℕ)
two_shares (a ∷ b ∷ shares) = ok (a, b)
two_shares [] = panicked
two_shares (a ∷ []) = panicked

-- `for level in 0..input.level + 1`, from a level on, with `n` levels left.
unfoldable pub fill_tables {ℓ} :
    {E : Type ℓ}
    → IdpfInput
    → (level n : ℕ) → List (ℕ × ℕ)
    → (data0 data1 : List ℕ) → Outcome E (List ℕ × List ℕ)
fill_tables input level zero values data0 data1 = ok (data0, data1)
fill_tables input level (suc n) values data0 data1 = do
  (value, values') ← next_value values
  node ← prefix input level
  i ← data_index node
  data0' ← store data0 i value.0
  data1' ← store data1 i value.1
  fill_tables input (suc level) n values' data0' data1'

module _ (f : FieldType) where
  unfoldable pub max_input_len : ℕ
  max_input_len = log2 (max_data_bytes / f.encoded_size)

  -- `random0 n k` and `random1 n k` are what the k-th call of `random_vector(n)` returns in the first
  -- and in the second `split_vector`.
  unfoldable pub gen :
      (random0 random1 : ℕ → ℕ → Outcome VdafError (List ℕ))
      → IdpfInput
      → List (ℕ × ℕ)
      → Outcome VdafError (ToyIdpf × ToyIdpf)
  gen random0 random1 input values = do
    guard (leb input.level max_input_len) (uncategorized (input_too_long input.level max_input_len))
    levels ← usize_add input.level 1
    data_len ← usize_shl 1 levels
    (data0, data1) ← fill_tables input 0 levels values (replicate data_len 0) (replicate data_len 0)
    split0 ← split_vector f (random0 (length data0)) data0 2
    split1 ← split_vector f (random1 (length data1)) data1 2
    (a0, b0) ← two_shares split0
    (a1, b1) ← two_shares split1
    ok (
      record { data0 = a0; data1 = a1; level = input.level },
      record { data0 = b0; data1 = b1; level = input.level },
    )

  unfoldable pub eval : ToyIdpf → IdpfInput → Outcome VdafError (ℕ × ℕ)
  eval self node = do
    guard (leb node.level self.level) (uncategorized (prefix_too_long node.level self.level))
    i ← data_index node
    v ← index self.data0 i
    k ← index self.data1 i
    ok (v, k)

  unfoldable pub encode_toy : Encoder ToyIdpf
  encode_toy self bytes = do
    bytes₀ ← encode_u24_items (encode f) bytes self.data0
    bytes₁ ← encode_u24_items (encode f) bytes₀ self.data1
    encode_u64 self.level bytes₁

  unfoldable pub decode_toy : ReadBytesExt → Decoder ToyIdpf
  decode_toy r c = do
    (data0, c₀) ← decode_u24_items (decode f) r c
    (data1, c₁) ← decode_u24_items (decode f) r c₀
    (level, c₂) ← decode_u64 r c₁
    ok (record { data0 = data0; data1 = data1; level = level }, c₂)

  abbrev pub toy :
      (random0 random1 : ℕ → ℕ → Outcome VdafError (List ℕ)) → ReadBytesExt → Idpf ToyIdpf
  toy random0 random1 r = record {
    gen = gen random0 random1;
    eval = eval;
    encode_key = encode_toy;
    decode_key = decode_toy r;
  }
