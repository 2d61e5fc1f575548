-- ===== src/Prio3/Rounds.antt =====
-- The two rounds of preparation in src/vdaf/prio3.rs, of aggregators that see the shares of one proof.
use libprio_rs.Common.{
  ℕ, zero, suc, ◌+◌, ◌^◌, ◌≤◌, ◌<◌, ◌≡◌, refl, ap, ◌∙◌, List, [], ◌∷◌, arith, length, All, lt→ltb,
  ==_self,
}
use libprio_rs.Common.Xor.{xor_each}
use libprio_rs.Outcome.{Outcome, ok, ◌>>=◌}
use libprio_rs.Field.{FieldType, add_each}
use libprio_rs.Field.Elementwise.{length-add_each}
use libprio_rs.Field.Sums.{add_all}
use libprio_rs.Prg.{Prg, xor_accumulate}
use libprio_rs.Prg.Equality.{seed_eq_self}
use libprio_rs.Vdaf.{VdafError}
use libprio_rs.Prio3.{
  Prio3, Prio3InputShare, Prio3VerifyParam, Prio3PrepareMessage, ready, Prio3PrepareStep,
}
use libprio_rs.Prio3.Shard.{when_joint}
use libprio_rs.Prio3.Prepare.{check_joint, preprocess_loop, prepare_init}
use libprio_rs.Prio3.Hints.{xor_all}

-- `prepare_init` of every aggregator with its parameter and its message.
abbrev pub prepare_all :
    (f : FieldType) {State Stream : Type 0} (prg : Prg State Stream) (l fuel : ℕ)
    {Measurement : Type 0} (self : Prio3 Measurement) (nonce : List ℕ)
    → List Prio3VerifyParam
    → List Prio3InputShare
    → Outcome VdafError (List Prio3PrepareStep)
prepare_all f prg l fuel self nonce (param ∷ params) (msg ∷ msgs) = do
  step ← prepare_init f prg l fuel self param nonce msg
  steps ← prepare_all f prg l fuel self nonce params msgs
  ok (step ∷ steps)
prepare_all f prg l fuel self nonce [] msgs = ok []
prepare_all f prg l fuel self nonce (param ∷ params) [] = ok []

-- The message of an aggregator's first round, and its step after `prepare_init`.
abbrev pub round_message : (joint_rand_len : ℕ) (verifier hint : List ℕ) → Prio3PrepareMessage
round_message joint_rand_len verifier hint = record {
  verifier = verifier;
  joint_rand_seed = when_joint joint_rand_len hint;
}

abbrev pub ready_step :
    (joint_rand_len : ℕ) (joint : List ℕ) (id : ℕ)
    → Prio3InputShare
    → (verifier hint : List ℕ) → Prio3PrepareStep
ready_step joint_rand_len joint id msg verifier hint = record {
  input_share = msg.input_share;
  joint_rand_seed = when_joint joint_rand_len joint;
  aggregator_id = id;
  verifier_len = length verifier;
  state = ready (round_message joint_rand_len verifier hint);
}

abbrev pub round_messages :
    (joint_rand_len : ℕ) (verifiers hints : List (List ℕ)) → List Prio3PrepareMessage
round_messages n (v ∷ verifiers) (h ∷ hints) =
    round_message n v h ∷ round_messages n verifiers hints
round_messages n [] hints = []
round_messages n (v ∷ verifiers) [] = []

abbrev pub ready_steps :
    (joint_rand_len : ℕ) (joint : List ℕ) (id : ℕ)
    → List Prio3InputShare
    → (verifiers hints : List (List ℕ)) → List Prio3PrepareStep
ready_steps n joint id (msg ∷ msgs) (v ∷ verifiers) (h ∷ hints) =
    ready_step n joint id msg v h ∷ ready_steps n joint (suc id) msgs verifiers hints
ready_steps n joint id _ _ _ = []

-- A seed that both sides have passes the check.
pub check_joint_same :
    (n : ℕ) (seed : List ℕ) → check_joint n (when_joint n seed) (when_joint n seed) ≡ ok tt
unfolding check_joint
check_joint_same zero seed = refl
check_joint_same (suc n) seed = rw (lt→ltb 0 (suc n) (omega arith), seed_eq_self seed) refl

-- The joint randomness after some messages.
abbrev pub joint_after : ℕ → List ℕ → List (List ℕ) → List ℕ
joint_after zero joint hints = joint
joint_after (suc n) joint hints = xor_all joint hints

pub joint_after-when_joint :
    (n : ℕ) (joint : List ℕ) (hints : List (List ℕ))
    → when_joint n (joint_after n joint hints) ≡ when_joint n (xor_all joint hints)
joint_after-when_joint zero joint hints = refl
joint_after-when_joint (suc n) joint hints = refl

module _ (f : FieldType) (hp : f.fp.p < 2 ^ 128) (n : ℕ) where
  -- The loop of `prepare_preprocess` adds the verifiers and XORs the seeds, and counts.
  pub preprocess_loop_lem :
      (joint_rand_len : ℕ) (verifiers hints : List (List ℕ)) (acc joint : List ℕ) (count : ℕ)
      → length verifiers ≡ length hints
      → count + length verifiers ≤ 255
      → length acc ≡ n
      → All (λ v. length v ≡ n) verifiers
      → preprocess_loop f joint_rand_len
          (round_messages joint_rand_len verifiers hints)
          acc
          joint
          count
        ≡ ok (
          add_all f acc verifiers,
          joint_after joint_rand_len joint hints,
          count + length verifiers,
        )
  unfolding preprocess_loop xor_accumulate
  preprocess_loop_lem m [] (s ∷ hints) acc joint count same few ha h = absurd (omega arith)
  preprocess_loop_lem zero [] [] acc joint count same few ha h =
      let c : count ≡ count + 0 = omega arith in ap (λ (t : ℕ). ok (acc, joint, t)) c
  preprocess_loop_lem (suc m) [] [] acc joint count same few ha h =
      let c : count ≡ count + 0 = omega arith in ap (λ (t : ℕ). ok (acc, joint, t)) c
  preprocess_loop_lem zero (v ∷ verifiers) (s ∷ hints) acc joint count same few ha (hv, h) =
      let c : count + suc (length verifiers) ≡ count + 1 + length verifiers = omega arith in
      rw (lt→ltb count 255 (omega arith), hv, ha, ==_self n, c)
        (preprocess_loop_lem zero verifiers hints (add_each f acc v) joint (count + 1) (omega arith)
          (omega arith) (length-add_each f hp acc v ∙ ha) h)
  preprocess_loop_lem (suc m) (v ∷ verifiers) (s ∷ hints) acc joint count same few ha (hv, h) =
      let c : count + suc (length verifiers) ≡ count + 1 + length verifiers = omega arith in
      rw (lt→ltb count 255 (omega arith), hv, ha, ==_self n, lt→ltb 0 (suc m) (omega arith), c)
        (preprocess_loop_lem (suc m) verifiers hints (add_each f acc v) (xor_each joint s)
          (count + 1) (omega arith) (omega arith) (length-add_each f hp acc v ∙ ha) h)
  preprocess_loop_lem m (v ∷ verifiers) [] acc joint count same few ha h = absurd (omega arith)
