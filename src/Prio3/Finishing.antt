-- ===== src/Prio3/Finishing.antt =====
-- The rounds of `prepare_step` of src/vdaf/prio3.rs, and `prepare_preprocess` between them.
use libprio_rs.Common.{
  ℕ, suc, ◌+◌, ◌≤◌, ◌≡◌, refl, ap, List, [], ◌∷◌, arith, some, none, length, length-replicate, All,
  replicate, ==_self,
}
use libprio_rs.Outcome.{Outcome, ok, ◌>>=◌, ◌>>◌, guard, map_err}
use libprio_rs.Field.{FieldType}
use libprio_rs.Field.Codec.{IsFieldType}
use libprio_rs.Field.Sums.{add_all}
use libprio_rs.Flp.{AllQueried}
use libprio_rs.Prg.{Prg, uninitialized}
use libprio_rs.Vdaf.{continue, finish, PrepareTransition, flp, uncategorized, proof_check_failed}
use libprio_rs.Prio3.{Prio3, Prio3InputShare, Prio3PrepareMessage, waiting, Prio3PrepareStep}
use libprio_rs.Prio3.Shard.{when_joint}
use libprio_rs.Prio3.Prepare.{fail_on_err, prepare_preprocess, prepare_step, step_by, finish_step}
use libprio_rs.Prio3.Hints.{xor_all}
use libprio_rs.Prio3.Views.{IsSeen, AllSeen}
use libprio_rs.Prio3.Rounds.{
  ready_step, round_messages, ready_steps, check_joint_same, joint_after-when_joint,
  preprocess_loop_lem,
}

module _ (f : FieldType) (ok_f : IsFieldType f) {State Stream : Type 0} (prg : Prg State Stream)
    (l fuel : ℕ) {Measurement : Type 0} (self : Prio3 Measurement) where
  open self use {typ, num_aggregators}

  pub lengths_seen :
      (joint joint_rand : List ℕ) (id : ℕ) (msgs : List Prio3InputShare)
      (inputs proofs hints : List (List ℕ))
      → AllSeen f ok_f prg l fuel typ joint joint_rand id msgs inputs proofs hints
      → length hints ≡ length inputs
  lengths_seen joint joint_rand id [] [] [] [] seen = refl
  lengths_seen joint joint_rand id (msg ∷ msgs) (xs ∷ inputs) (zs ∷ proofs) (h ∷ hints)
        (one, seen) =
      ap suc (lengths_seen joint joint_rand (suc id) msgs inputs proofs hints seen)
  lengths_seen joint joint_rand id msgs inputs proofs hints seen = ground arith

  -- The verifiers' lengths, by the steps.
  pub verifiers_whole :
      (joint query_rand joint_rand : List ℕ) (id : ℕ) (msgs : List Prio3InputShare)
      (inputs proofs hints verifiers : List (List ℕ))
      → AllSeen f ok_f prg l fuel typ joint joint_rand id msgs inputs proofs hints
      → AllQueried typ query_rand joint_rand num_aggregators inputs proofs verifiers
      → All
          (λ step. step.verifier_len ≡ typ.verifier_len)
          (ready_steps typ.joint_rand_len joint id msgs verifiers hints)
      → All (λ v. length v ≡ typ.verifier_len) verifiers × (length verifiers ≡ length inputs)
  verifiers_whole joint query_rand joint_rand id [] [] [] [] [] seen q h = (tt, refl)
  verifiers_whole joint query_rand joint_rand id (msg ∷ msgs) (xs ∷ inputs) (zs ∷ proofs)
        (hint ∷ hints) (vs ∷ verifiers) (one, seen) (asked, q) (hv, h) =
      let (all, count) =
        verifiers_whole joint query_rand joint_rand (suc id) msgs inputs proofs hints verifiers seen
          q h in
      ((hv, all), ap suc count)
  verifiers_whole joint query_rand joint_rand id msgs inputs proofs hints verifiers seen q h =
      ground arith

  -- What `decide` makes of the verifier, and then the output share of an input share.
  abbrev pub verdict :
      (verifier input : List ℕ)
      → Outcome ⊥ (PrepareTransition Prio3PrepareStep Prio3PrepareMessage (List ℕ))
  verdict verifier input = fail_on_err (do
    res ← map_err flp (typ.decide verifier)
    guard res (uncategorized proof_check_failed)
    data_ ← map_err flp (typ.truncate input)
    ok (finish data_))

  -- The second round of one aggregator, with the message that preprocessing gives.
  finish_lem :
      (joint joint_rand : List ℕ) (id : ℕ) (msg : Prio3InputShare)
      (input proof hint verifier : List ℕ) (received : Prio3PrepareMessage)
      → IsSeen f ok_f prg l fuel typ joint joint_rand id msg input proof hint
      → received.joint_rand_seed ≡ when_joint typ.joint_rand_len joint
      → prepare_step f prg l fuel self
          (record (ready_step typ.joint_rand_len joint id msg verifier hint) { state = waiting })
          (some received)
        ≡ verdict received.verifier input
  unfolding prepare_step step_by finish_step
  finish_lem joint joint_rand id msg input proof hint verifier received (ex, ez, ej) same =
      rw (same, check_joint_same typ.joint_rand_len joint, ex) refl

  -- Every step goes on with its message, and then comes to the verdict with its input share.
  abbrev pub AllContinue : List Prio3PrepareStep → List Prio3PrepareMessage → Type 0
  AllContinue (step ∷ steps) (message ∷ messages) =
      (prepare_step f prg l fuel self step none
        ≡ ok (continue (record step { state = waiting }) message))
      × AllContinue steps messages
  AllContinue [] [] = Unit {0}
  AllContinue _ _ = ⊥

  abbrev pub AllJudged : Prio3PrepareMessage → List Prio3PrepareStep → List (List ℕ) → Type 0
  AllJudged received (step ∷ steps) (input ∷ inputs) =
      (prepare_step f prg l fuel self (record step { state = waiting }) (some received)
        ≡ verdict received.verifier input)
      × AllJudged received steps inputs
  AllJudged received [] [] = Unit {0}
  AllJudged received _ _ = ⊥

  pub all_continue :
      (joint joint_rand query_rand : List ℕ) (id : ℕ) (msgs : List Prio3InputShare)
      (inputs proofs hints verifiers : List (List ℕ))
      → AllSeen f ok_f prg l fuel typ joint joint_rand id msgs inputs proofs hints
      → AllQueried typ query_rand joint_rand num_aggregators inputs proofs verifiers
      → AllContinue
          (ready_steps typ.joint_rand_len joint id msgs verifiers hints)
          (round_messages typ.joint_rand_len verifiers hints)
  unfolding prepare_step step_by
  all_continue joint joint_rand query_rand id [] [] [] [] [] seen q = tt
  all_continue joint joint_rand query_rand id (msg ∷ msgs) (xs ∷ inputs) (zs ∷ proofs) (h ∷ hints)
        (v ∷ verifiers) (one, seen) (asked, q) =
      (
        refl,
        all_continue joint joint_rand query_rand (suc id) msgs inputs proofs hints verifiers seen q,
      )
  all_continue joint joint_rand query_rand id msgs inputs proofs hints verifiers seen q =
      ground arith

  pub all_judged :
      (joint joint_rand query_rand : List ℕ) (id : ℕ) (msgs : List Prio3InputShare)
      (inputs proofs hints verifiers : List (List ℕ)) (received : Prio3PrepareMessage)
      → received.joint_rand_seed ≡ when_joint typ.joint_rand_len joint
      → AllSeen f ok_f prg l fuel typ joint joint_rand id msgs inputs proofs hints
      → AllQueried typ query_rand joint_rand num_aggregators inputs proofs verifiers
      → AllJudged received (ready_steps typ.joint_rand_len joint id msgs verifiers hints) inputs
  all_judged joint joint_rand query_rand id [] [] [] [] [] received same seen q = tt
  all_judged joint joint_rand query_rand id (msg ∷ msgs) (xs ∷ inputs) (zs ∷ proofs) (h ∷ hints)
        (v ∷ verifiers) received same (one, seen) (asked, q) =
      (
        finish_lem joint joint_rand id msg xs zs h v received one same,
        all_judged joint joint_rand query_rand (suc id) msgs inputs proofs hints verifiers received
            same seen q,
      )
  all_judged joint joint_rand query_rand id msgs inputs proofs hints verifiers received same seen
        q =
      ground arith

  pub preprocess_lem :
      (joint : List ℕ) (inputs hints verifiers : List (List ℕ))
      → num_aggregators ≤ 254
      → length inputs ≡ num_aggregators
      → xor_all (uninitialized l) hints ≡ joint
      → length hints ≡ length inputs
      → All (λ v. length v ≡ typ.verifier_len) verifiers × (length verifiers ≡ length inputs)
      → prepare_preprocess f l self (round_messages typ.joint_rand_len verifiers hints)
        ≡ ok (record {
          verifier = add_all f (replicate typ.verifier_len 0) verifiers;
          joint_rand_seed = when_joint typ.joint_rand_len joint;
        })
  unfolding prepare_preprocess
  preprocess_lem joint inputs hints verifiers few count back hh (all, hv) =
      let looped =
        preprocess_loop_lem f ok_f.p_lt_word typ.verifier_len typ.joint_rand_len verifiers hints
          (replicate typ.verifier_len 0) (uninitialized l) 0 (omega arith) (omega arith)
          (length-replicate typ.verifier_len 0) all in
      let total : 0 + length verifiers ≡ num_aggregators = omega arith in
      rw
        (
          looped,
          total,
          ==_self num_aggregators,
          joint_after-when_joint typ.joint_rand_len (uninitialized l) hints,
          back,
        )
        refl
