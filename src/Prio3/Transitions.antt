-- ===== src/Prio3/Transitions.antt =====
-- The state machine of `prepare_step` in src/vdaf/prio3.rs.
use libprio_rs.Common.{
  ℕ, zero, suc, ◌≡◌, refl, sym, ap, ◌∙◌, List, arith, Option, some, none, Bool, true, false, lt→ltb,
  ◌⊎◌, inl, inr,
}
use mathlib.Core.Path.{subst}
use libprio_rs.Outcome.{
  Outcome, ok, err, panicked, diverged, >>=-eq-ok, guard, map_err, map_err-eq-ok,
}
use libprio_rs.Field.{FieldType}
use libprio_rs.Prg.{Prg, seed_eq}
use libprio_rs.Vdaf.{VdafError, PrepareTransition, continue, finish}
use libprio_rs.Prio3.{
  Prio3, Prio3PrepareMessage, PrepareStep, ready, waiting, Prio3PrepareStep, expand_share,
}
use libprio_rs.Prio3.Prepare.{fail_on_err, check_joint, finish_step, step_by, prepare_step}

-- The seeds are both there and compare equal, where there is joint randomness.
abbrev pub SameJoint : ℕ → Option (List ℕ) → Option (List ℕ) → Type 0
SameJoint zero own received = Unit {0}
SameJoint (suc n) (some a) (some b) = seed_eq a b ≡ true
SameJoint (suc n) _ _ = ⊥

guard-eq-ok {ℓ} : {E : Type ℓ} (b : Bool) (e : E) {r : Unit {0}} → guard b e ≡ ok r → b ≡ true
guard-eq-ok true e h = refl
guard-eq-ok false e h = cc

panicked-ne-ok : {r : Unit {0}} → ◌≡◌ {A = Outcome VdafError (Unit {0})} panicked (ok r) → ⊥
panicked-ne-ok e = cc

check_joint_lem :
    (n : ℕ) (own received : Option (List ℕ)) {r : Unit {0}}
    → check_joint n own received ≡ ok r
    → SameJoint n own received
unfolding check_joint
check_joint_lem zero own received e = tt
check_joint_lem (suc n) (some a) (some b) e =
    guard-eq-ok (seed_eq a b) _ (rw (lt→ltb 0 (suc n) (omega arith)) at e)
check_joint_lem (suc n) (some a) none e =
    absurd (panicked-ne-ok (rw (lt→ltb 0 (suc n) (omega arith)) at e))
check_joint_lem (suc n) none received e =
    absurd (panicked-ne-ok (rw (lt→ltb 0 (suc n) (omega arith)) at e))

module _ {T : Type 0} where
  fail_on_err-continue :
      (m : Outcome VdafError (PrepareTransition Prio3PrepareStep Prio3PrepareMessage T))
      {step : Prio3PrepareStep} {msg : Prio3PrepareMessage}
      → fail_on_err m ≡ ok (continue step msg)
      → m ≡ ok (continue step msg)
  fail_on_err-continue (ok t) e = let same : t ≡ continue _ _ = cc e in ap ok same
  fail_on_err-continue (err x) e = cc
  fail_on_err-continue panicked e = cc
  fail_on_err-continue diverged e = cc

  fail_on_err-finish :
      (m : Outcome VdafError (PrepareTransition Prio3PrepareStep Prio3PrepareMessage T)) {out : T}
      → fail_on_err m ≡ ok (finish out)
      → m ≡ ok (finish out)
  fail_on_err-finish (ok t) e = let same : t ≡ finish _ = cc e in ap ok same
  fail_on_err-finish (err x) e = cc
  fail_on_err-finish panicked e = cc
  fail_on_err-finish diverged e = cc

module _ (f : FieldType) {State Stream : Type 0} (prg : Prg State Stream) (l fuel : ℕ)
    {Measurement : Type 0} (self : Prio3 Measurement) where
  open self use {typ}

  -- Why an aggregator may finish: the proof is accepted, the joint randomness is its own, and the
  -- output share is what truncation leaves of its input share.
  pub record IsVerified (step : Prio3PrepareStep) (msg : Prio3PrepareMessage) (output : List ℕ)
      : Type 0 where
    pub input : List ℕ
    pub same_joint : SameJoint typ.joint_rand_len step.joint_rand_seed msg.joint_rand_seed
    pub accepted : typ.decide msg.verifier ≡ ok true
    pub expanded :
        expand_share f prg fuel {E = VdafError} step.aggregator_id typ.input_len step.input_share
        ≡ ok input
    pub truncated : typ.truncate input ≡ ok output

  finish_step_lem :
      (step : Prio3PrepareStep) (msg : Prio3PrepareMessage)
      (t : PrepareTransition Prio3PrepareStep Prio3PrepareMessage (List ℕ))
      → finish_step f prg l fuel self step msg ≡ ok t
      → (output : List ℕ) × (finish output ≡ t) × IsVerified step msg output
  unfolding finish_step
  finish_step_lem step msg t e =
      let (u, joint, e₁) =
        >>=-eq-ok (check_joint typ.joint_rand_len step.joint_rand_seed msg.joint_rand_seed) _ e in
      let (res, decided, e₂) = >>=-eq-ok (map_err _ (typ.decide msg.verifier)) _ e₁ in
      let (v, guarded, e₃) = >>=-eq-ok (guard res _) _ e₂ in
      let (input, expanded, e₄) =
        >>=-eq-ok (expand_share f prg fuel step.aggregator_id typ.input_len step.input_share) _
          e₃ in
      let (output, truncated, last) = >>=-eq-ok (map_err _ (typ.truncate input)) _ e₄ in
      let yes : res ≡ true = guard-eq-ok res _ guarded in
      (
        output,
        cc last,
        record {
          input = input;
          same_joint =
              check_joint_lem typ.joint_rand_len step.joint_rand_seed msg.joint_rand_seed joint;
          accepted = map_err-eq-ok _ (typ.decide msg.verifier) decided ∙ ap ok yes;
          expanded = expanded;
          truncated = map_err-eq-ok _ (typ.truncate input) truncated;
        },
      )

  -- A step goes on only from the ready state and without a message, and then waits.
  continue_by :
      (step step' : Prio3PrepareStep) (state : PrepareStep) (input : Option Prio3PrepareMessage)
      (msg : Prio3PrepareMessage)
      → step_by f prg l fuel self step state input ≡ ok (continue step' msg)
      → (state ≡ ready msg) × (record step { state = waiting } ≡ step')
  unfolding step_by
  continue_by step step' (ready m) none msg e = (cc e, cc e)
  continue_by step step' (ready m) (some received) msg e = cc
  continue_by step step' waiting none msg e = cc
  continue_by step step' waiting (some received) msg e =
      let (output, same, verified) = finish_step_lem step received (continue step' msg) e in cc

  finish_by :
      (step : Prio3PrepareStep) (state : PrepareStep) (input : Option Prio3PrepareMessage)
      (output : List ℕ)
      → step_by f prg l fuel self step state input ≡ ok (finish output)
      → (msg : Prio3PrepareMessage) × (state ≡ waiting)
        × (input ≡ some msg)
        × IsVerified step msg output
  unfolding step_by
  finish_by step (ready m) none output e = cc
  finish_by step (ready m) (some received) output e = cc
  finish_by step waiting none output e = cc
  finish_by step waiting (some msg) output e =
      let (out, same, verified) = finish_step_lem step msg (finish output) e in
      let equal : out ≡ output = cc same in
      (msg, refl, refl, subst (IsVerified step msg) equal verified)

  -- The steps that calls of `prepare_step` come to, each going on with the step before.
  pub data Reaches (first : Prio3PrepareStep) : Prio3PrepareStep → Type 0 where
    start : Reaches first first
    next :
        {step step' : Prio3PrepareStep} (input : Option Prio3PrepareMessage)
        (msg : Prio3PrepareMessage)
        → Reaches first step
        → prepare_step f prg l fuel self step input ≡ ok (continue step' msg)
        → Reaches first step'

  reached :
      (first step : Prio3PrepareStep)
      → Reaches first step
      → (step ≡ first) ⊎ (step ≡ record first { state = waiting })
  unfolding prepare_step
  reached first step start = inl refl
  reached first step' (next {step = step} {step' = step''} input msg r e) =
      let went = fail_on_err-continue (step_by f prg l fuel self step step.state input) e in
      let (was_ready, same) = continue_by step step'' step.state input msg went in
      let wait : Prio3PrepareStep → Prio3PrepareStep = λ s. record s { state = waiting } in
      elim (reached first step r) [
        | inl here ↦ inr (sym same ∙ ap wait here)
        | inr there ↦ inr (sym same ∙ ap wait there)
      ]

  -- From a step that `prepare_init` left ready, whatever messages come, an output share is returned
  -- only by the step after exactly one round: with its input share and its seed as they were, for a
  -- message whose proof is accepted and whose joint randomness is the aggregator's own, and it is
  -- the truncation of the aggregator's input share.
  pub Reaches-IsVerified :
      (first step : Prio3PrepareStep) (m : Prio3PrepareMessage) (input : Option Prio3PrepareMessage)
      (output : List ℕ)
      → first.state ≡ ready m
      → Reaches first step
      → prepare_step f prg l fuel self step input ≡ ok (finish output)
      → (msg : Prio3PrepareMessage) × (step ≡ record first { state = waiting })
        × (input ≡ some msg)
        × IsVerified first msg output
  unfolding prepare_step
  Reaches-IsVerified first step m input output is_ready r e =
      let went = fail_on_err-finish (step_by f prg l fuel self step step.state input) e in
      let (msg, is_waiting, given, verified) = finish_by step step.state input output went in
      elim (reached first step r) [
        | inl here ↦
            let clash : ready m ≡ waiting =
              sym is_ready ∙ sym (ap (λ (s : Prio3PrepareStep). s.state) here) ∙ is_waiting in
            cc
        | inr there ↦
            let v = subst (λ s. IsVerified s msg output) there verified in
            (
              msg,
              there,
              given,
              record {
                input = v.input;
                same_joint = v.same_joint;
                accepted = v.accepted;
                expanded = v.expanded;
                truncated = v.truncated;
              },
            )
      ]
