-- ===== src/Prio3/Messages.antt =====
-- src/vdaf/prio3.rs: the codec of what clients and aggregators send and store.
use libprio_rs.Common.{ℕ, List, Option, none, some, Bool, true, false, ltb, ◌==◌, if◌then◌else◌}
use libprio_rs.Outcome.{ok, ◌>>=◌, ◌>>◌, assert}
use libprio_rs.Codec.{Decoder, Encoder, decode_u8, encode_u8}
use libprio_rs.Field.{FieldType}
use libprio_rs.Vdaf.{
  Share, leader, helper, ShareDecodingParameter, leader_length, helper_seed, decode_seed,
  encode_seed, decode_share, encode_share, decode_elements, encode_elements,
}
use libprio_rs.Prio3.{
  Prio3, JointRandParam, Prio3InputShare, Prio3VerifyParam, Prio3PrepareMessage, PrepareStep, ready,
  waiting, Prio3PrepareStep, verify_param,
}

unfoldable pub encode_verify_param : Encoder Prio3VerifyParam
encode_verify_param param bytes = do
  bytes' ← encode_seed param.query_rand_init bytes
  encode_u8 param.aggregator_id bytes'

unfoldable pub decode_verify_param :
    {Measurement : Type 0} → ℕ → Prio3 Measurement → Decoder Prio3VerifyParam
decode_verify_param l vdaf c = do
  (query_rand_init, c') ← decode_seed l c
  (aggregator_id, c'') ← decode_u8 c'
  ok (verify_param vdaf query_rand_init aggregator_id, c'')

-- The parameters of an aggregator's shares.
abbrev pub share_parameter : ℕ → ℕ → ShareDecodingParameter
share_parameter aggregator_id n = if aggregator_id == 0 then leader_length n else helper_seed

-- A seed that is there where there is joint randomness.
abbrev pub decode_seed_if : ℕ → Bool → Decoder (Option (List ℕ))
decode_seed_if l present c =
    if present then (do (seed, c') ← decode_seed l c; ok (some seed, c')) else ok (none, c)

abbrev pub encode_seed_if : Encoder (Option (List ℕ))
encode_seed_if (some seed) bytes = encode_seed seed bytes
encode_seed_if none bytes = ok bytes

abbrev pub decode_param_if : ℕ → Bool → Decoder (Option JointRandParam)
decode_param_if l present c =
    if present
    then (do
      (blind, c') ← decode_seed l c
      (seed_hint, c'') ← decode_seed l c'
      ok (some (record { seed_hint = seed_hint; blind = blind }), c''))
    else ok (none, c)

abbrev pub encode_param_if : Encoder (Option JointRandParam)
encode_param_if (some param) bytes = do
  bytes' ← encode_seed param.blind bytes
  encode_seed param.seed_hint bytes'
encode_param_if none bytes = ok bytes

-- Whether both shares are a leader's or both a helper's.
abbrev pub unambiguous : Share → Share → Bool
unambiguous (leader x) (leader y) = true
unambiguous (leader x) (helper y) = false
unambiguous (helper x) (leader y) = false
unambiguous (helper x) (helper y) = true

abbrev pub is_waiting : PrepareStep → Bool
is_waiting (ready msg) = false
is_waiting waiting = true

abbrev pub is_some {ℓ} : {A : Type ℓ} → Option A → Bool
is_some (some x) = true
is_some none = false

module _ (f : FieldType) where
  unfoldable pub encode_input_share : Encoder Prio3InputShare
  encode_input_share msg bytes = do
    assert (unambiguous msg.input_share msg.proof_share)
    bytes' ← encode_share f msg.input_share bytes
    bytes'' ← encode_share f msg.proof_share bytes'
    encode_param_if msg.joint_rand_param bytes''

  unfoldable pub decode_input_share : ℕ → Prio3VerifyParam → Decoder Prio3InputShare
  decode_input_share l param c = do
    (input_share, c') ← decode_share f l (share_parameter param.aggregator_id param.input_len) c
    (proof_share, c'') ← decode_share f l (share_parameter param.aggregator_id param.proof_len) c'
    (joint_rand_param, c''') ← decode_param_if l (ltb 0 param.joint_rand_len) c''
    ok (
      record {
        input_share = input_share;
        proof_share = proof_share;
        joint_rand_param = joint_rand_param;
      },
      c''',
    )

  unfoldable pub encode_prepare_message : Encoder Prio3PrepareMessage
  encode_prepare_message msg bytes = do
    bytes' ← encode_elements f msg.verifier bytes
    encode_seed_if msg.joint_rand_seed bytes'

  unfoldable pub decode_prepare_message : ℕ → Prio3PrepareStep → Decoder Prio3PrepareMessage
  decode_prepare_message l step c = do
    (verifier, c') ← decode_elements f step.verifier_len c
    (joint_rand_seed, c'') ← decode_seed_if l (is_some step.joint_rand_seed) c'
    ok (record { verifier = verifier; joint_rand_seed = joint_rand_seed }, c'')

  unfoldable pub encode_prepare_step : Encoder Prio3PrepareStep
  encode_prepare_step step bytes = do
    assert (is_waiting step.state)
    bytes' ← encode_share f step.input_share bytes
    encode_seed_if step.joint_rand_seed bytes'

  unfoldable pub decode_prepare_step : ℕ → Prio3VerifyParam → Decoder Prio3PrepareStep
  decode_prepare_step l param c = do
    (input_share, c') ← decode_share f l (share_parameter param.aggregator_id param.input_len) c
    (joint_rand_seed, c'') ← decode_seed_if l (ltb 0 param.joint_rand_len) c'
    ok (
      record {
        input_share = input_share;
        joint_rand_seed = joint_rand_seed;
        aggregator_id = param.aggregator_id;
        verifier_len = param.verifier_len;
        state = waiting;
      },
      c'',
    )
