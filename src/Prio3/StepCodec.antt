-- ===== src/Prio3/StepCodec.antt =====
-- The codec of prepare messages and of stored steps in src/vdaf/prio3.rs.
use libprio_rs.Common.{
  ℕ, ◌+◌, ◌^◌, ◌<◌, ◌≡◌, refl, ap, List, ◌++◌, arith, length, length-append, append_assoc, Option,
  some, none, ltb, lt→ltb,
}
use libprio_rs.Outcome.{ok}
use libprio_rs.Codec.{cursor}
use libprio_rs.Codec.EncodeItems.{wires}
use libprio_rs.Field.{FieldType}
use libprio_rs.Field.Codec.{IsFieldType, wire}
use libprio_rs.Field.Elementwise.{IsVector}
use libprio_rs.Vdaf.ShareCodec.{encode_elements_lem, decode_elements_lem}
use libprio_rs.Prio3.{Prio3VerifyParam, Prio3PrepareMessage, waiting, Prio3PrepareStep}
use libprio_rs.Prio3.Messages.{
  encode_prepare_message, decode_prepare_message, encode_prepare_step, decode_prepare_step, is_some,
}
use libprio_rs.Prio3.MessageCodec.{
  IsEncoding, IsShareOf, IsSeedOf, share_lem, seed_lem, wires_short,
}

module _ (f : FieldType) (ok_f : IsFieldType f) (l : ℕ) (small_l : l < 2 ^ 32) where
  is_some_lem :
      (n : ℕ) (seed : Option (List ℕ)) → IsSeedOf f ok_f l small_l n seed → is_some seed ≡ ltb 0 n
  is_some_lem n none n0 = rw n0 refl
  is_some_lem n (some seed) (n0, hs) = rw (lt→ltb 0 n n0) refl

  message_lem :
      (step : Prio3PrepareStep) (joint_rand_len : ℕ) (msg : Prio3PrepareMessage)
      → step.verifier_len < 2 ^ 32
      → IsVector f step.verifier_len msg.verifier
      → IsSeedOf f ok_f l small_l joint_rand_len step.joint_rand_seed
      → IsSeedOf f ok_f l small_l joint_rand_len msg.joint_rand_seed
      → (w : List ℕ) × IsEncoding
          (encode_prepare_message f)
          (decode_prepare_message f l step)
          msg
          (2 ^ 62)
          w
  unfolding encode_prepare_message decode_prepare_message
  message_lem step n msg small (len, h) hs hm =
      let a = wires (wire f ok_f) msg.verifier in
      let la = wires_short f ok_f l small_l msg.verifier (omega arith) in
      let (b, lb, cb) = seed_lem f ok_f l small_l n msg.joint_rand_seed hm in
      (
        a ++ b,
        record {
          encodes = λ bytes hb.
              rw
                (
                  encode_elements_lem f ok_f msg.verifier bytes h (omega arith),
                  cb.encodes (bytes ++ a) (omega (arith, length-append bytes a)),
                )
                (ap ok (append_assoc bytes a b));
          decodes = λ p rest hp.
              rw
                (
                  append_assoc a b rest,
                  is_some_lem n step.joint_rand_seed hs,
                  ← len,
                  decode_elements_lem f ok_f msg.verifier (b ++ rest) p h (omega arith),
                  cb.decodes (p + length a) rest (omega arith),
                )
                (ap (λ (q : ℕ). ok (msg, cursor q rest)) {x = p + length a + length b}
                  {y = p + length (a ++ b)} (omega (arith, length-append a b)));
        },
      )

  step_lem :
      (param : Prio3VerifyParam) (step : Prio3PrepareStep)
      → param.input_len < 2 ^ 32
      → step.aggregator_id ≡ param.aggregator_id
      → step.verifier_len ≡ param.verifier_len
      → step.state ≡ waiting
      → IsShareOf f ok_f l small_l param.aggregator_id param.input_len step.input_share
      → IsSeedOf f ok_f l small_l param.joint_rand_len step.joint_rand_seed
      → (w : List ℕ) × IsEncoding
          (encode_prepare_step f)
          (decode_prepare_step f l param)
          step
          (2 ^ 62)
          w
  unfolding encode_prepare_step decode_prepare_step
  step_lem param step small hid hv hw hi hs =
      let (a, la, ca) =
        share_lem f ok_f l small_l param.aggregator_id param.input_len step.input_share small hi in
      let (b, lb, cb) = seed_lem f ok_f l small_l param.joint_rand_len step.joint_rand_seed hs in
      (
        a ++ b,
        record {
          encodes = λ bytes hb.
              rw
                (
                  hw,
                  ca.encodes bytes (omega arith),
                  cb.encodes (bytes ++ a) (omega (arith, length-append bytes a)),
                )
                (ap ok (append_assoc bytes a b));
          decodes = λ p rest hp.
              rw
                (
                  append_assoc a b rest,
                  ca.decodes p (b ++ rest) (omega arith),
                  cb.decodes (p + length a) rest (omega arith),
                )
                (rw (← hid, ← hv, ← hw)
                  (ap (λ (q : ℕ). ok (step, cursor q rest)) {x = p + length a + length b}
                    {y = p + length (a ++ b)} (omega (arith, length-append a b))));
        },
      )

  -- For a seed length l and a parameter's input and verifier lengths below 2^32: a step that waits, with the
  -- parameter's aggregator and verifier length, its input share, for the aggregator 0, a leader's of reduced
  -- elements of the input length and for the others a helper's seed of l bytes, and with a seed of the joint randomness, of l bytes,
  -- exactly where the parameter's `joint_rand_len` is above 0, encodes without a panic by appending
  -- bytes, and these decode to it with that parameter. A prepare message of a reduced verifier of that
  -- length, which has a seed of l bytes exactly where the parameter's `joint_rand_len` is above 0, and
  -- so exactly where the step has one, does so with the step. Both do in front of other bytes, on a
  -- buffer and from a position below 2^62.
  pub prepare-IsEncoding :
      (param : Prio3VerifyParam) (step : Prio3PrepareStep) (msg : Prio3PrepareMessage)
      → param.input_len < 2 ^ 32
      → param.verifier_len < 2 ^ 32
      → step.aggregator_id ≡ param.aggregator_id
      → step.verifier_len ≡ param.verifier_len
      → step.state ≡ waiting
      → IsShareOf f ok_f l small_l param.aggregator_id param.input_len step.input_share
      → IsSeedOf f ok_f l small_l param.joint_rand_len step.joint_rand_seed
      → IsVector f param.verifier_len msg.verifier
      → IsSeedOf f ok_f l small_l param.joint_rand_len msg.joint_rand_seed
      → ((w : List ℕ) × IsEncoding
            (encode_prepare_step f)
            (decode_prepare_step f l param)
            step
            (2 ^ 62)
            w)
        × ((w : List ℕ) × IsEncoding
              (encode_prepare_message f)
              (decode_prepare_message f l step)
              msg
              (2 ^ 62)
              w)
  prepare-IsEncoding param step msg small_input small_verifier hid hv hw hi hs hm hj = (
    step_lem param step small_input hid hv hw hi hs,
    message_lem step param.joint_rand_len msg (omega arith) (rw hv hm) hs hj,
  )
