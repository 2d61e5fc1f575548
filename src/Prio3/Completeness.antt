-- ===== src/Prio3/Completeness.antt =====
-- A report that a client shards in src/vdaf/prio3.rs, from its messages to the aggregators' verdicts.
use libprio_rs.Common.{ℕ, ◌≤◌, ◌≡◌, refl, List, replicate, All}
use libprio_rs.Outcome.{ok}
use libprio_rs.Field.{FieldType}
use libprio_rs.Field.Codec.{IsFieldType}
use libprio_rs.Field.Elementwise.{IsVector}
use libprio_rs.Field.Sums.{add_all}
use libprio_rs.Flp.{AllQueried}
use libprio_rs.Prg.{Prg, RandSource}
use libprio_rs.Vdaf.{VdafError}
use libprio_rs.Prio3.{
  Prio3, Prio3InputShare, Prio3PrepareMessage, Prio3PrepareStep, vers_prio3, expand, verify_params,
}
use libprio_rs.Prio3.Shard.{when_joint, shard_with_rand_source}
use libprio_rs.Prio3.Prepare.{prepare_preprocess, query_rand_seed}
use libprio_rs.Prio3.Views.{IsShared}
use libprio_rs.Prio3.Sharing.{shard-IsShared}
use libprio_rs.Prio3.Rounds.{prepare_all, round_messages}
use libprio_rs.Prio3.Queries.{prepare_all_lem}
use libprio_rs.Prio3.Finishing.{
  AllContinue, AllJudged, all_continue, all_judged, preprocess_lem, lengths_seen, verifiers_whole,
}
use mathlib.Core.Path.{subst}

module _ (f : FieldType) (ok_f : IsFieldType f) {State Stream : Type 0} (prg : Prg State Stream)
    (l fuel : ℕ) {Measurement : Type 0} (self : Prio3 Measurement) where
  open self use {typ, num_aggregators}

  -- A run of the aggregators: they query with shares of the measurement's input and of its proof,
  -- the first round gives every message, these are preprocessed into the sum of the verifiers, and
  -- in the second round every aggregator comes to what `decide` says of that sum.
  pub record IsJudged (measurement : Measurement) (query_rand : List ℕ)
      (msgs : List Prio3InputShare) (steps : List Prio3PrepareStep) : Type 0 where
    pub shared : IsShared f ok_f prg l fuel typ measurement num_aggregators msgs
    pub verifiers : List (List ℕ)
    pub messages : List Prio3PrepareMessage
    pub received : Prio3PrepareMessage
    pub queried :
        AllQueried typ query_rand shared.joint_rand num_aggregators shared.inputs shared.proofs
          verifiers
    pub continued : AllContinue f ok_f prg l fuel self steps messages
    pub preprocessed : prepare_preprocess f l self messages ≡ ok received
    pub summed : received.verifier ≡ add_all f (replicate typ.verifier_len 0) verifiers
    pub judged : AllJudged f ok_f prg l fuel self received steps shared.inputs

  judged_lem :
      (measurement : Measurement) (init nonce query_rand : List ℕ) (msgs : List Prio3InputShare)
      (steps : List Prio3PrepareStep)
      → num_aggregators ≤ 254
      → IsShared f ok_f prg l fuel typ measurement num_aggregators msgs
      → expand f prg fuel {E = VdafError}
          (query_rand_seed f prg l fuel init nonce)
          vers_prio3
          typ.query_rand_len
        ≡ ok query_rand
      → prepare_all f prg l fuel self nonce (verify_params self init 0 num_aggregators) msgs
        ≡ ok steps
      → All (λ step. step.verifier_len ≡ typ.verifier_len) steps
      → IsJudged measurement query_rand msgs steps
  judged_lem measurement init nonce query_rand msgs steps few sh drawn e lens =
      let q =
        prepare_all_lem f ok_f prg l fuel self init nonce sh.joint sh.joint_rand query_rand 0 msgs
          sh.inputs sh.proofs sh.hints steps drawn sh.seen (rw sh.one_each e) in
      let hv =
        verifiers_whole f ok_f prg l fuel self sh.joint query_rand sh.joint_rand 0 msgs sh.inputs
          sh.proofs sh.hints q.verifiers sh.seen q.queried
          (subst (All (λ step. step.verifier_len ≡ typ.verifier_len)) q.made lens) in
      let hh =
        lengths_seen f ok_f prg l fuel self sh.joint sh.joint_rand 0 msgs sh.inputs sh.proofs
          sh.hints sh.seen in
      let received : Prio3PrepareMessage = record {
        verifier = add_all f (replicate typ.verifier_len 0) q.verifiers;
        joint_rand_seed = when_joint typ.joint_rand_len sh.joint;
      } in
      rw q.made (record {
        shared = sh;
        verifiers = q.verifiers;
        messages = round_messages typ.joint_rand_len q.verifiers sh.hints;
        received = received;
        queried = q.queried;
        continued =
            all_continue f ok_f prg l fuel self sh.joint sh.joint_rand query_rand 0 msgs sh.inputs
              sh.proofs sh.hints q.verifiers sh.seen q.queried;
        preprocessed =
            preprocess_lem f ok_f prg l fuel self sh.joint sh.inputs sh.hints q.verifiers few
              sh.one_each sh.joint_back hh hv;
        summed = refl;
        judged =
            all_judged f ok_f prg l fuel self sh.joint sh.joint_rand query_rand 0 msgs sh.inputs
              sh.proofs sh.hints q.verifiers received refl sh.seen q.queried;
      })

  -- A report that sharding made is judged by its proof. For at most 254 aggregators, a measurement
  -- that `encode` makes a reduced vector of `input_len` elements, of which `prove`, on reduced
  -- vectors of prover and joint randomness of the type's lengths, returns none but reduced vectors of
  -- `proof_len` elements, where the query randomness is drawn, `prepare_init` of
  -- every aggregator returns, and the verifiers that it makes have `verifier_len` elements: each
  -- verifier is what `query` makes of additive shares of the input and its proof, with one query and
  -- joint randomness for all; the first `prepare_step` gives the messages, `prepare_preprocess` takes
  -- them and gives the sum of the verifiers; no aggregator finds a mismatch of the joint randomness,
  -- and every second `prepare_step` fails where `decide` refuses that sum, and otherwise finishes with
  -- the truncated share of the input, an error of `decide` or `truncate` being one of the step.
  pub shard-IsJudged {ℓ} :
      {E : Type ℓ} (measurement : Measurement) (encoding : List ℕ) (rand_source : RandSource E)
      (init nonce query_rand : List ℕ) (msgs : List Prio3InputShare) (steps : List Prio3PrepareStep)
      → num_aggregators ≤ 254
      → typ.encode measurement ≡ ok encoding
      → IsVector f typ.input_len encoding
      → ((prove_rand joint_rand proof : List ℕ)
          → IsVector f typ.prove_rand_len prove_rand
          → IsVector f typ.joint_rand_len joint_rand
          → typ.prove encoding prove_rand joint_rand ≡ ok proof
          → IsVector f typ.proof_len proof)
      → shard_with_rand_source f prg l fuel self measurement rand_source ≡ ok msgs
      → expand f prg fuel {E = VdafError}
          (query_rand_seed f prg l fuel init nonce)
          vers_prio3
          typ.query_rand_len
        ≡ ok query_rand
      → prepare_all f prg l fuel self nonce (verify_params self init 0 num_aggregators) msgs
        ≡ ok steps
      → All (λ step. step.verifier_len ≡ typ.verifier_len) steps
      → IsJudged measurement query_rand msgs steps
  shard-IsJudged measurement encoding rand_source init nonce query_rand msgs steps few he hi hp
        sharded drawn e lens =
      judged_lem measurement init nonce query_rand msgs steps few
        (shard-IsShared f ok_f prg l fuel self few measurement encoding rand_source msgs he hi hp
          sharded)
        drawn e lens
