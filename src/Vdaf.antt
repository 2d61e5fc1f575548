-- ===== src/Vdaf.antt =====
-- src/vdaf.rs: shares of vectors, their codec, and aggregate shares; with the seeds of
-- src/vdaf/prg.rs.
pub mod ShareCodec
pub mod Aggregation
use libprio_rs.Common.{ℕ, zero, suc, Bool, List, [], ◌∷◌, ◌++◌, ◌==◌, length}
use libprio_rs.Outcome.{Outcome, ok, err, ◌>>=◌, ◌>>◌, guard}
use libprio_rs.Codec.{CodecError, FieldError, Cursor, Decoder, Encoder, read_exact}
use libprio_rs.Flp.{FlpError}
use libprio_rs.Field.{FieldType, encode, decode, add_each, slice_into_byte_vec, byte_slice_into_vec}

-- The messages of `VdafError::Uncategorized`, with what they print.
pub data Message : Type 0 where
  cannot_sum : (left right : ℕ) → Message
  too_few_aggregators too_many_aggregators : (got : ℕ) → Message
  unexpected_aggregate_length : (got : ℕ) → Message
  result_too_large : Message
  unexpected_verifier_length unexpected_message_count : (got want : ℕ) → Message
  joint_randomness_mismatch proof_check_failed invalid_state_transition : Message
  bit_length_exceeds_data input_too_long prefix_too_long unexpected_message_length :
      (got want : ℕ) → Message
  prefixes_differ prefix_set_empty aggregate_overflow : Message
  output_is_invalid : (got : ℕ) → Message

-- What the errors of other packages hold is left out.
pub data VdafError : Type 0 where
  uncategorized : Message → VdafError
  field : FieldError → VdafError
  flp : FlpError → VdafError
  io_error prng get_random : VdafError

pub data PrepareTransition {ℓ κ μ} (S : Type ℓ) (M : Type κ) (O : Type μ) : Type (ℓ ⊔ κ ⊔ μ) where
  continue : S → M → PrepareTransition S M O
  finish : O → PrepareTransition S M O
  fail : VdafError → PrepareTransition S M O

-- `Seed<L>`: an array of L bytes.
unfoldable pub decode_seed : ℕ → Decoder (List ℕ)
decode_seed l = read_exact l

unfoldable pub encode_seed : Encoder (List ℕ)
encode_seed seed bytes = ok (bytes ++ seed)

pub data Share : Type 0 where
  leader : List ℕ → Share
  helper : List ℕ → Share

pub data ShareDecodingParameter : Type 0 where
  leader_length : ℕ → ShareDecodingParameter
  helper_seed : ShareDecodingParameter

module _ (f : FieldType) where
  -- `for _ in 0..*share_length { data.push(F::decode(bytes)?) }`
  unfoldable pub decode_elements : ℕ → Decoder (List ℕ)
  decode_elements zero c = ok ([], c)
  decode_elements (suc n) c = do
    (x, c') ← decode f c
    (xs, c'') ← decode_elements n c'
    ok (x ∷ xs, c'')

  -- `for x in share_data { x.encode(bytes); }`
  unfoldable pub encode_elements : Encoder (List ℕ)
  encode_elements [] bytes = ok bytes
  encode_elements (x ∷ xs) bytes = encode f x bytes >>= encode_elements xs

  unfoldable pub decode_share : ℕ → ShareDecodingParameter → Decoder Share
  decode_share l (leader_length n) c = do (xs, c') ← decode_elements n c; ok (leader xs, c')
  decode_share l helper_seed c = do (seed, c') ← decode_seed l c; ok (helper seed, c')

  unfoldable pub encode_share : Encoder Share
  encode_share (leader share_data) bytes = encode_elements share_data bytes
  encode_share (helper share_seed) bytes = encode_seed share_seed bytes

  -- `AggregateShare::sum`
  unfoldable pub sum : List ℕ → List ℕ → Outcome VdafError (List ℕ)
  sum self other = do
    guard (length self == length other) (uncategorized (cannot_sum (length self) (length other)))
    ok (add_each f self other)

  unfoldable pub merge : List ℕ → List ℕ → Outcome VdafError (List ℕ)
  merge self agg_share = sum self agg_share

  unfoldable pub accumulate : List ℕ → List ℕ → Outcome VdafError (List ℕ)
  accumulate self output_share = sum self output_share

  -- `fieldvec_try_from_bytes` and `fieldvec_to_vec`, by which output and aggregate shares become
  -- bytes and come from them.
  unfoldable pub fieldvec_try_from_bytes : List ℕ → Outcome FieldError (List ℕ)
  fieldvec_try_from_bytes bytes = byte_slice_into_vec f bytes

  unfoldable pub fieldvec_to_vec : List ℕ → List ℕ
  fieldvec_to_vec val = slice_into_byte_vec f val
