-- ===== src/Prio3/Shard.antt =====
-- src/vdaf/prio3.rs: a measurement split into the input shares of the aggregators.
use libprio_rs.Common.{
  ℕ, zero, suc, ◌+◌, ◌*◌, ◌%◌, List, [], ◌∷◌, Option, none, some, ltb, if◌then◌else◌, length, map,
}
use libprio_rs.Outcome.{Outcome, ok, panicked, ◌>>=◌, map_err}
use libprio_rs.Field.{FieldType, sub_each}
use libprio_rs.Prg.{Prg, RandSource, uninitialized, xor_accumulate, into_seed}
use libprio_rs.Vdaf.{VdafError, flp, leader, helper}
use libprio_rs.Prio3.{
  Prio3, JointRandParam, HelperShare, Prio3InputShare, vers_prio3, info, draw_seed, expand, absorb,
}
use Prim.Native.Nat.{min}

-- `num_aggregators as usize - 1`
abbrev pub minus_one {ℓ} : {E : Type ℓ} → ℕ → Outcome E ℕ
minus_one zero = panicked
minus_one (suc n) = ok n

-- `HelperShare::from_rand_source`, whose calls of the source are the k-th and the two behind it.
unfoldable pub helper_from_rand_source {ℓ} :
    {E : Type ℓ} → ℕ → RandSource E → ℕ → Outcome VdafError HelperShare
helper_from_rand_source l rand_source k = do
  input_seed ← draw_seed l rand_source k
  proof_seed ← draw_seed l rand_source (k + 1)
  blind ← draw_seed l rand_source (k + 2)
  ok (record {
    input_share = input_seed;
    proof_share = proof_seed;
    joint_rand_param = record { seed_hint = uninitialized l; blind = blind };
  })

abbrev pub with_hint : HelperShare → List ℕ → HelperShare
with_hint share seed_hint = record share {
  joint_rand_param = record (share.joint_rand_param) { seed_hint = seed_hint };
}

-- `if self.typ.joint_rand_len() > 0 { Some(..) } else { None }`
abbrev pub when_joint {ℓ} : {A : Type ℓ} → ℕ → A → Option A
when_joint joint_rand_len x = if ltb 0 joint_rand_len then some x else none

-- The message to a helper.
abbrev pub helper_message : ℕ → HelperShare → Prio3InputShare
helper_message joint_rand_len share = record {
  input_share = helper share.input_share;
  proof_share = helper share.proof_share;
  joint_rand_param = when_joint joint_rand_len share.joint_rand_param;
}

abbrev pub leader_message : List ℕ → List ℕ → Option JointRandParam → Prio3InputShare
leader_message input proof joint_rand_param = record {
  input_share = leader input;
  proof_share = leader proof;
  joint_rand_param = joint_rand_param;
}

module _ (f : FieldType) {State Stream : Type 0} (prg : Prg State Stream) (l : ℕ) where
  -- The seed that a blind, an aggregator's number and its input share derive.
  unfoldable pub derive_hint : List ℕ → ℕ → List ℕ → List ℕ
  derive_hint blind aggregator_id xs =
      into_seed prg l (absorb f prg (prg.update (prg.init blind) (aggregator_id ∷ [])) xs)

module _ (f : FieldType) {State Stream : Type 0} (prg : Prg State Stream) (l fuel : ℕ) where
  -- `for aggregator_id in 1..num_aggregators`, of which `n` rounds are left: the leader's input
  -- share, the joint randomness, and the helpers.
  unfoldable pub share_input {ℓ} :
      {E : Type ℓ}
      → RandSource E
      → (input_len k aggregator_id n : ℕ) (leader_input joint : List ℕ)
      → Outcome VdafError (List ℕ × List ℕ × List HelperShare)
  share_input rand_source input_len k aggregator_id zero leader_input joint =
      ok (leader_input, joint, [])
  share_input rand_source input_len k aggregator_id (suc n) leader_input joint = do
    share ← helper_from_rand_source l rand_source k
    ys ←
        expand f prg fuel share.input_share (info aggregator_id)
          (min (length leader_input) input_len)
    let seed_hint = derive_hint f prg l share.joint_rand_param.blind aggregator_id ys
    (leader_input', joint', shares) ←
        share_input rand_source input_len (k + 3) (suc aggregator_id) n (sub_each f leader_input ys)
          (xor_accumulate joint seed_hint)
    ok (leader_input', joint', with_hint share seed_hint ∷ shares)

  -- The loop over the helpers, from the j-th on: the leader's proof share, and the helpers with
  -- their hints.
  unfoldable pub share_proof :
      (proof_len j : ℕ)
      → List ℕ
      → List HelperShare
      → List ℕ
      → Outcome VdafError (List ℕ × List HelperShare)
  share_proof proof_len j joint [] leader_proof = ok (leader_proof, [])
  share_proof proof_len j joint (share ∷ shares) leader_proof = do
    ys ←
        expand f prg fuel share.proof_share (info (j % 256 + 1))
          (min (length leader_proof) proof_len)
    (leader_proof', shares') ←
        share_proof proof_len (suc j) joint shares (sub_each f leader_proof ys)
    ok (
      leader_proof',
      with_hint share (xor_accumulate share.joint_rand_param.seed_hint joint) ∷ shares',
    )

  module _ {Measurement : Type 0} (self : Prio3 Measurement) where
    open self use {typ, num_aggregators}

    -- From the proof on: its shares, the hints, and the output messages.
    unfoldable pub output_messages :
        (leader_input leader_hint blind joint_rand_seed : List ℕ)
        → List HelperShare
        → (proof : List ℕ) → Outcome VdafError (List Prio3InputShare)
    output_messages leader_input leader_hint blind joint_rand_seed shares proof = do
      (leader_proof, shares') ← share_proof typ.proof_len 0 joint_rand_seed shares proof
      let leader_param : JointRandParam = record {
        seed_hint = xor_accumulate leader_hint joint_rand_seed;
        blind = blind;
      }
      ok (
          leader_message leader_input leader_proof (when_joint typ.joint_rand_len leader_param)
          ∷ map (helper_message typ.joint_rand_len) shares')

    -- From the leader's blind on, which is the k-th call of the source: the joint randomness, the proof
    -- and the messages.
    unfoldable pub prove_shares {ℓ} :
        {E : Type ℓ}
        → RandSource E
        → ℕ
        → (input leader_input joint : List ℕ) → List HelperShare
        → Outcome VdafError (List Prio3InputShare)
    prove_shares rand_source k input leader_input joint shares = do
      blind ← draw_seed l rand_source k
      let leader_hint = derive_hint f prg l blind 0 leader_input
      let joint_rand_seed = xor_accumulate joint leader_hint
      joint_rand ← expand f prg fuel joint_rand_seed vers_prio3 typ.joint_rand_len
      prove_seed ← draw_seed l rand_source (k + 1)
      prove_rand ← expand f prg fuel prove_seed vers_prio3 typ.prove_rand_len
      proof ← map_err flp (typ.prove input prove_rand joint_rand)
      output_messages leader_input leader_hint blind joint_rand_seed shares proof

    unfoldable pub shard_with_rand_source {ℓ} :
        {E : Type ℓ} → Measurement → RandSource E → Outcome VdafError (List Prio3InputShare)
    shard_with_rand_source measurement rand_source = do
      input ← map_err flp (typ.encode measurement)
      helpers ← minus_one num_aggregators
      (leader_input, joint, shares) ←
          share_input rand_source typ.input_len 0 1 helpers input (uninitialized l)
      prove_shares rand_source (3 * helpers) input leader_input joint shares
