-- ===== src/Prio3/Prepare.antt =====
-- src/vdaf/prio3.rs: how the aggregators verify their shares of a report.
use libprio_rs.Common.{
  ℕ, ◌+◌, List, [], ◌∷◌, Option, none, some, ltb, ◌==◌, if◌then◌else◌, length, replicate,
}
use libprio_rs.Outcome.{Outcome, ok, err, panicked, diverged, ◌>>=◌, ◌>>◌, guard, map_err}
use libprio_rs.Field.{FieldType, add_each}
use libprio_rs.Prg.{Prg, uninitialized, xor_accumulate, xor, seed_eq, into_seed}
use libprio_rs.Vdaf.{
  VdafError, uncategorized, flp, unexpected_verifier_length, unexpected_message_count,
  joint_randomness_mismatch, proof_check_failed, invalid_state_transition, PrepareTransition,
  continue, finish, fail,
}
use libprio_rs.Prio3.{
  Prio3, JointRandParam, Prio3InputShare, Prio3VerifyParam, Prio3PrepareMessage, PrepareStep, ready,
  waiting, Prio3PrepareStep, vers_prio3, unwrap, expand, expand_share,
}
use libprio_rs.Prio3.Shard.{derive_hint, when_joint}

-- `count += 1` of a `u8`.
abbrev pub count_one {ℓ} : {E : Type ℓ} → ℕ → Outcome E ℕ
count_one count = if ltb count 255 then ok (count + 1) else panicked

-- What `return PrepareTransition::Fail(..)` makes of an error.
abbrev pub fail_on_err {ℓ} :
    {T : Type ℓ}
    → Outcome VdafError (PrepareTransition Prio3PrepareStep Prio3PrepareMessage T)
    → Outcome ⊥ (PrepareTransition Prio3PrepareStep Prio3PrepareMessage T)
fail_on_err (ok t) = ok t
fail_on_err (err e) = ok (fail e)
fail_on_err panicked = panicked
fail_on_err diverged = diverged

-- The joint randomness of one more share.
abbrev pub accumulate_joint {ℓ} : {E : Type ℓ} → ℕ → List ℕ → Option (List ℕ) → Outcome E (List ℕ)
accumulate_joint joint_rand_len joint share_seed =
    if ltb 0 joint_rand_len
    then (do seed ← unwrap share_seed; ok (xor_accumulate joint seed))
    else ok joint

-- The check of the joint randomness.
unfoldable pub check_joint : ℕ → Option (List ℕ) → Option (List ℕ) → Outcome VdafError (Unit {0})
check_joint joint_rand_len own received =
    if ltb 0 joint_rand_len
    then (do
      a ← unwrap own
      b ← unwrap received
      guard (seed_eq a b) (uncategorized joint_randomness_mismatch))
    else ok tt

module _ (f : FieldType) where
  -- The loop of `prepare_preprocess`: the verifier, the joint randomness and the count.
  unfoldable pub preprocess_loop :
      (joint_rand_len : ℕ)
      → List Prio3PrepareMessage
      → (verifier joint : List ℕ) (count : ℕ) → Outcome VdafError (List ℕ × List ℕ × ℕ)
  preprocess_loop joint_rand_len [] verifier joint count = ok (verifier, joint, count)
  preprocess_loop joint_rand_len (share ∷ inputs) verifier joint count = do
    count' ← count_one count
    guard (length share.verifier == length verifier)
        (uncategorized (unexpected_verifier_length (length share.verifier) (length verifier)))
    joint' ← accumulate_joint joint_rand_len joint share.joint_rand_seed
    preprocess_loop joint_rand_len inputs (add_each f verifier share.verifier) joint' count'

  unfoldable pub prepare_preprocess :
      {Measurement : Type 0}
      → ℕ
      → Prio3 Measurement
      → List Prio3PrepareMessage
      → Outcome VdafError Prio3PrepareMessage
  prepare_preprocess l self inputs = do
    (verifier, joint, count) ←
        preprocess_loop self.typ.joint_rand_len inputs (replicate self.typ.verifier_len 0)
          (uninitialized l) 0
    guard (count == self.num_aggregators)
        (uncategorized (unexpected_message_count count self.num_aggregators))
    ok (record { verifier = verifier; joint_rand_seed = when_joint self.typ.joint_rand_len joint })

module _ (f : FieldType) {State Stream : Type 0} (prg : Prg State Stream) (l fuel : ℕ) where
  -- The seed of the joint randomness, the aggregator's share of that seed, and the elements.
  unfoldable pub joint_randomness {ℓ} :
      {E : Type ℓ}
      → ℕ
      → ℕ
      → Option JointRandParam
      → List ℕ
      → Outcome E (Option (List ℕ) × Option (List ℕ) × List ℕ)
  joint_randomness joint_rand_len aggregator_id joint_rand_param input_share =
      if ltb 0 joint_rand_len
      then (do
        param ← unwrap joint_rand_param
        let seed_share = derive_hint f prg l param.blind aggregator_id input_share
        let seed = xor param.seed_hint seed_share
        elements ← expand f prg fuel seed vers_prio3 joint_rand_len
        ok (some seed, some seed_share, elements))
      else ok (none, none, [])

  -- `P::init(&verify_param.query_rand_init)`, updated with 255 and the nonce.
  unfoldable pub query_rand_seed : List ℕ → List ℕ → List ℕ
  query_rand_seed query_rand_init nonce =
      into_seed prg l (prg.update (prg.update (prg.init query_rand_init) (255 ∷ [])) nonce)

  module _ {Measurement : Type 0} (self : Prio3 Measurement) where
    open self use {typ, num_aggregators}

    unfoldable pub prepare_init :
        Prio3VerifyParam → List ℕ → Prio3InputShare → Outcome VdafError Prio3PrepareStep
    prepare_init param nonce msg = do
      input_share ← expand_share f prg fuel param.aggregator_id typ.input_len msg.input_share
      proof_share ← expand_share f prg fuel param.aggregator_id typ.proof_len msg.proof_share
      (seed, seed_share, joint_rand) ←
          joint_randomness typ.joint_rand_len param.aggregator_id msg.joint_rand_param input_share
      query_rand ←
          expand f prg fuel (query_rand_seed param.query_rand_init nonce) vers_prio3
            typ.query_rand_len
      verifier ←
          map_err flp (typ.query input_share proof_share query_rand joint_rand num_aggregators)
      ok (record {
        input_share = msg.input_share;
        joint_rand_seed = seed;
        aggregator_id = param.aggregator_id;
        verifier_len = length verifier;
        state = ready (record { verifier = verifier; joint_rand_seed = seed_share });
      })

    -- The arm of `(Waiting, Some(msg))`.
    unfoldable pub finish_step :
        Prio3PrepareStep
        → Prio3PrepareMessage
        → Outcome VdafError (PrepareTransition Prio3PrepareStep Prio3PrepareMessage (List ℕ))
    finish_step step msg = do
      check_joint typ.joint_rand_len step.joint_rand_seed msg.joint_rand_seed
      res ← map_err flp (typ.decide msg.verifier)
      guard res (uncategorized proof_check_failed)
      input_share ← expand_share f prg fuel step.aggregator_id typ.input_len step.input_share
      data_ ← map_err flp (typ.truncate input_share)
      ok (finish data_)

    -- The arms of `match (step.state, input)`.
    unfoldable pub step_by :
        Prio3PrepareStep
        → PrepareStep
        → Option Prio3PrepareMessage
        → Outcome VdafError (PrepareTransition Prio3PrepareStep Prio3PrepareMessage (List ℕ))
    step_by step (ready verifier_msg) none =
        ok (continue (record step { state = waiting }) verifier_msg)
    step_by step waiting (some msg) = finish_step step msg
    step_by step (ready verifier_msg) (some msg) = err (uncategorized invalid_state_transition)
    step_by step waiting none = err (uncategorized invalid_state_transition)

    unfoldable pub prepare_step :
        Prio3PrepareStep
        → Option Prio3PrepareMessage
        → Outcome ⊥ (PrepareTransition Prio3PrepareStep Prio3PrepareMessage (List ℕ))
    prepare_step step input = fail_on_err (step_by step step.state input)
