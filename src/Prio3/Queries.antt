-- ===== src/Prio3/Queries.antt =====
-- What `prepare_init` of src/vdaf/prio3.rs makes of the messages of a client.
use libprio_rs.Common.{ℕ, suc, ◌≡◌, sym, ◌∙◌, List, [], ◌∷◌, arith, length}
use libprio_rs.Outcome.{ok, >>=-eq-ok, map_err, map_err-eq-ok}
use libprio_rs.Field.{FieldType}
use libprio_rs.Field.Codec.{IsFieldType}
use libprio_rs.Flp.{AllQueried}
use libprio_rs.Prg.{Prg}
use libprio_rs.Vdaf.{VdafError}
use libprio_rs.Prio3.{
  Prio3, Prio3InputShare, Prio3PrepareStep, vers_prio3, expand, verify_param, verify_params,
}
use libprio_rs.Prio3.Prepare.{prepare_init, query_rand_seed}
use libprio_rs.Prio3.Views.{IsSeen, AllSeen}
use mathlib.Core.Path.{ap₂}
use libprio_rs.Prio3.Rounds.{prepare_all, ready_step, ready_steps}

module _ (f : FieldType) (ok_f : IsFieldType f) {State Stream : Type 0} (prg : Prg State Stream)
    (l fuel : ℕ) {Measurement : Type 0} (self : Prio3 Measurement) where
  open self use {typ, num_aggregators}

  -- The queries of the aggregators from `id` on, and the steps that they come to.
  pub record IsQueried (joint joint_rand query_rand : List ℕ) (id : ℕ) (msgs : List Prio3InputShare)
      (inputs proofs hints : List (List ℕ)) (steps : List Prio3PrepareStep) : Type 0 where
    pub verifiers : List (List ℕ)
    pub queried : AllQueried typ query_rand joint_rand num_aggregators inputs proofs verifiers
    pub made : steps ≡ ready_steps typ.joint_rand_len joint id msgs verifiers hints

  prepare_init_lem :
      (init nonce joint joint_rand query_rand : List ℕ) (id : ℕ) (msg : Prio3InputShare)
      (input proof hint : List ℕ) (step : Prio3PrepareStep)
      → expand f prg fuel {E = VdafError}
          (query_rand_seed f prg l fuel init nonce)
          vers_prio3
          typ.query_rand_len
        ≡ ok query_rand
      → IsSeen f ok_f prg l fuel typ joint joint_rand id msg input proof hint
      → prepare_init f prg l fuel self (verify_param self init id) nonce msg ≡ ok step
      → (verifier : List ℕ) × (typ.query input proof query_rand joint_rand num_aggregators
          ≡ ok verifier)
        × (ready_step typ.joint_rand_len joint id msg verifier hint ≡ step)
  unfolding prepare_init
  prepare_init_lem init nonce joint joint_rand query_rand id msg input proof hint step drawn
        (ex, ez, ej) e =
      let (verifier, asked, last) =
        >>=-eq-ok (map_err _ (typ.query input proof query_rand joint_rand num_aggregators)) _
          (rw (ex, ez, ej, drawn) at e) in
      (
        verifier,
        map_err-eq-ok _ (typ.query input proof query_rand joint_rand num_aggregators) asked,
        cc last,
      )

  pub prepare_all_lem :
      (init nonce joint joint_rand query_rand : List ℕ) (id : ℕ) (msgs : List Prio3InputShare)
      (inputs proofs hints : List (List ℕ)) (steps : List Prio3PrepareStep)
      → expand f prg fuel {E = VdafError}
          (query_rand_seed f prg l fuel init nonce)
          vers_prio3
          typ.query_rand_len
        ≡ ok query_rand
      → AllSeen f ok_f prg l fuel typ joint joint_rand id msgs inputs proofs hints
      → prepare_all f prg l fuel self nonce (verify_params self init id (length inputs)) msgs
        ≡ ok steps
      → IsQueried joint joint_rand query_rand id msgs inputs proofs hints steps
  unfolding verify_params
  prepare_all_lem init nonce joint joint_rand query_rand id [] [] [] [] steps drawn seen e =
      record { verifiers = []; queried = tt; made = cc e }
  prepare_all_lem init nonce joint joint_rand query_rand id (msg ∷ msgs) (xs ∷ inputs) (zs ∷ proofs)
        (h ∷ hints) steps drawn (one, seen) e =
      let (step, first, e₁) =
        >>=-eq-ok (prepare_init f prg l fuel self (verify_param self init id) nonce msg) _ e in
      let (steps', rest, last) =
        >>=-eq-ok
          (prepare_all f prg l fuel self nonce (verify_params self init (suc id) (length inputs))
            msgs)
          _ e₁ in
      let (verifier, asked, same) =
        prepare_init_lem init nonce joint joint_rand query_rand id msg xs zs h step drawn one
          first in
      let others =
        prepare_all_lem init nonce joint joint_rand query_rand (suc id) msgs inputs proofs hints
          steps' drawn seen rest in
      let q : step ∷ steps' ≡ steps = cc last in
      record {
        verifiers = verifier ∷ others.verifiers;
        queried = (asked, others.queried);
        made =
            sym q
            ∙ ap₂ (λ (s : Prio3PrepareStep) (t : List Prio3PrepareStep). s ∷ t) (sym same)
                others.made;
      }
  prepare_all_lem init nonce joint joint_rand query_rand id msgs inputs proofs hints steps drawn
        seen e =
      ground arith
