-- ===== src/Poplar1/Transitions.antt =====
-- The state machine of `prepare_step` in src/vdaf/poplar1.rs.
use libprio_rs.Common.{
  ℕ, ◌≡◌, refl, sym, ap, ◌∙◌, List, [], ◌∷◌, Option, some, none, true, ◌⊎◌, inl, inr, Bool-cases,
}
use mathlib.Core.Path.{ap₂}
use libprio_rs.Field.{FieldType, eq}
use libprio_rs.Vdaf.{VdafError, uncategorized, output_is_invalid, continue, finish, fail}
use libprio_rs.Poplar1.{Poplar1PrepareStep, SketchState, ready, round_one, round_two}
use libprio_rs.Poplar1.Prepare.{y_share, second_round, last_round, step_by, prepare_step}

ap₃ :
    {A B C D : Type 0} (g : A → B → C → D) {a a' : A} {b b' : B} {c c' : C}
    → a ≡ a'
    → b ≡ b'
    → c ≡ c'
    → g a b c ≡ g a' b' c'
ap₃ g {a' = a'} {b = b} {c = c} ea eb ec = ap (λ x. g x b c) ea ∙ ap₂ (g a') eb ec

module _ (f : FieldType) where
  abbrev z_list : Poplar1PrepareStep → List ℕ
  z_list step = step.z.0 ∷ step.z.1 ∷ step.z.2 ∷ []

  abbrev in_state : SketchState → Poplar1PrepareStep → Poplar1PrepareStep
  in_state sketch step = record step { sketch = sketch }

  -- The first round: no message is taken, and the sketch is sent.
  continue_ready :
      (step step' : Poplar1PrepareStep) (input : Option (List ℕ)) (msg : List ℕ)
      → step_by f step ready input ≡ continue step' msg
      → (input ≡ none) × (step' ≡ in_state round_one step) × (msg ≡ z_list step)
  unfolding step_by
  continue_ready step step' none msg e = (refl, cc e, cc e)
  continue_ready step step' (some m) msg e = cc

  continue_second :
      (step step' : Poplar1PrepareStep) (m msg : List ℕ)
      → second_round f step m ≡ continue step' msg
      → (z0 z1 z2 : ℕ) × (m ≡ z0 ∷ z1 ∷ z2 ∷ [])
        × (step' ≡ in_state round_two step)
        × (msg ≡ y_share f step z0 z1 z2 ∷ [])
  unfolding second_round
  continue_second step step' [] msg e = cc
  continue_second step step' (z0 ∷ []) msg e = cc
  continue_second step step' (z0 ∷ z1 ∷ []) msg e = cc
  continue_second step step' (z0 ∷ z1 ∷ z2 ∷ []) msg e = (z0, z1, z2, refl, cc e, cc e)
  continue_second step step' (z0 ∷ z1 ∷ z2 ∷ z3 ∷ m) msg e = cc

  continue_one :
      (step step' : Poplar1PrepareStep) (input : Option (List ℕ)) (msg : List ℕ)
      → step_by f step round_one input ≡ continue step' msg
      → (z0 z1 z2 : ℕ) × (input ≡ some (z0 ∷ z1 ∷ z2 ∷ []))
        × (step' ≡ in_state round_two step)
        × (msg ≡ y_share f step z0 z1 z2 ∷ [])
  unfolding step_by
  continue_one step step' none msg e = cc
  continue_one step step' (some m) msg e =
      let (z0, z1, z2, em, es, ey) = continue_second step step' m msg e in
      (z0, z1, z2, ap some em, es, ey)

  last_round_lem :
      (step : Poplar1PrepareStep) (m : List ℕ)
      → ((y : ℕ) × (m ≡ y ∷ [])
          × (eq f y 0 ≡ true)
          × (last_round f step m ≡ finish step.output_share))
        ⊎ ((reason : VdafError) × (last_round f step m ≡ fail reason))
  unfolding last_round
  last_round_lem step [] = inr (_, refl)
  last_round_lem step (y ∷ []) = elim (Bool-cases (eq f y 0)) [
    | inl holds ↦ inl (y, refl, holds, rw holds refl)
    | inr fails ↦ inr (uncategorized (output_is_invalid y), rw fails refl)
  ]
  last_round_lem step (y ∷ y' ∷ m) = inr (_, refl)

  continue_two :
      (step step' : Poplar1PrepareStep) (input : Option (List ℕ)) (msg : List ℕ)
      → step_by f step round_two input ≡ continue step' msg
      → ⊥
  unfolding step_by
  continue_two step step' none msg e = cc
  continue_two step step' (some m) msg e = elim (last_round_lem step m) [
    | inl (y, em, zero_y, l) ↦ cc
    | inr (reason, l) ↦ cc
  ]

  finish_second :
      (step : Poplar1PrepareStep) (m : List ℕ) (output : List ℕ)
      → second_round f step m ≡ finish output
      → ⊥
  unfolding second_round
  finish_second step [] output e = cc
  finish_second step (z0 ∷ []) output e = cc
  finish_second step (z0 ∷ z1 ∷ []) output e = cc
  finish_second step (z0 ∷ z1 ∷ z2 ∷ []) output e = cc
  finish_second step (z0 ∷ z1 ∷ z2 ∷ z3 ∷ m) output e = cc

  finish_early :
      (step : Poplar1PrepareStep) (input : Option (List ℕ)) (output : List ℕ)
      → (step_by f step ready input ≡ finish output → ⊥)
        × (step_by f step round_one input ≡ finish output → ⊥)
  unfolding step_by
  finish_early step none output = (λ e. cc, λ e. cc)
  finish_early step (some m) output = (λ e. cc, finish_second step m output)

  finish_two :
      (step : Poplar1PrepareStep) (input : Option (List ℕ)) (output : List ℕ)
      → step_by f step round_two input ≡ finish output
      → (y : ℕ) × (input ≡ some (y ∷ [])) × (eq f y 0 ≡ true) × (output ≡ step.output_share)
  unfolding step_by
  finish_two step none output e = cc
  finish_two step (some m) output e = elim (last_round_lem step m) [
    | inl (y, em, zero_y, l) ↦ (y, ap some em, zero_y, cc)
    | inr (reason, l) ↦ cc
  ]

  -- The steps that calls of `prepare_step` come to, each going on with the step before, and what each
  -- call took and sent, the last first.
  pub data Reaches (first : Poplar1PrepareStep)
      : Poplar1PrepareStep → List (Option (List ℕ) × List ℕ) → Type 0 where
    start : Reaches first first []
    next :
        {step step' : Poplar1PrepareStep} {calls : List (Option (List ℕ) × List ℕ)}
        (input : Option (List ℕ)) (msg : List ℕ)
        → Reaches first step calls
        → prepare_step f step input ≡ continue step' msg
        → Reaches first step' ((input, msg) ∷ calls)

  -- What two rounds took and sent.
  abbrev pub two_rounds : Poplar1PrepareStep → (z0 z1 z2 : ℕ) → List (Option (List ℕ) × List ℕ)
  two_rounds first z0 z1 z2 =
      (some (z0 ∷ z1 ∷ z2 ∷ []), y_share f first z0 z1 z2 ∷ [])
      ∷ (none, first.z.0 ∷ first.z.1 ∷ first.z.2 ∷ [])
      ∷ []

  -- Where the machine is after the calls.
  data Position (first step : Poplar1PrepareStep) (calls : List (Option (List ℕ) × List ℕ))
      : Type 0 where
    at_start : calls ≡ [] → step ≡ first → Position first step calls
    after_one :
        calls ≡ (none, z_list first) ∷ []
        → step ≡ in_state round_one first
        → Position first step calls
    after_two :
        (z0 z1 z2 : ℕ)
        → calls ≡ two_rounds first z0 z1 z2
        → step ≡ in_state round_two first
        → Position first step calls

  moved :
      (first step step' : Poplar1PrepareStep) (calls : List (Option (List ℕ) × List ℕ))
      (input : Option (List ℕ)) (msg : List ℕ)
      → first.sketch ≡ ready
      → Position first step calls
      → prepare_step f step input ≡ continue step' msg
      → Position first step' ((input, msg) ∷ calls)
  unfolding prepare_step y_share
  moved first step step' calls input msg is_ready (at_start ec es) e =
      let went : step_by f first ready input ≡ continue step' msg =
        ap (λ k. step_by f first k input) (sym is_ready)
        ∙ ap (λ (s : Poplar1PrepareStep). step_by f s s.sketch input) (sym es)
        ∙ e in
      let (ei, es', em) = continue_ready first step' input msg went in
      after_one
        (ap₃
          (λ (i : Option (List ℕ)) (m : List ℕ) (c : List (Option (List ℕ) × List ℕ)). (i, m) ∷ c)
          ei em ec)
        es'
  moved first step step' calls input msg is_ready (after_one ec es) e =
      let went : step_by f (in_state round_one first) round_one input ≡ continue step' msg =
        ap (λ (s : Poplar1PrepareStep). step_by f s s.sketch input) (sym es) ∙ e in
      let (z0, z1, z2, ei, es', em) =
        continue_one (in_state round_one first) step' input msg went in
      after_two z0 z1 z2
        (ap₃
          (λ (i : Option (List ℕ)) (m : List ℕ) (c : List (Option (List ℕ) × List ℕ)). (i, m) ∷ c)
          ei em ec)
        es'
  moved first step step' calls input msg is_ready (after_two z0 z1 z2 ec es) e =
      let went : step_by f (in_state round_two first) round_two input ≡ continue step' msg =
        ap (λ (s : Poplar1PrepareStep). step_by f s s.sketch input) (sym es) ∙ e in
      absurd (continue_two (in_state round_two first) step' input msg went)

  reached :
      (first step : Poplar1PrepareStep) (calls : List (Option (List ℕ) × List ℕ))
      → first.sketch ≡ ready
      → Reaches first step calls
      → Position first step calls
  reached first step calls is_ready start = at_start refl refl
  reached first step' calls is_ready
        (next {step = step} {step' = step''} {calls = before} input msg r e) =
      moved first step step'' before input msg is_ready (reached first step before is_ready r) e

  finished :
      (first step : Poplar1PrepareStep) (calls : List (Option (List ℕ) × List ℕ))
      (input : Option (List ℕ)) (output : List ℕ)
      → first.sketch ≡ ready
      → Position first step calls
      → prepare_step f step input ≡ finish output
      → (z0 z1 z2 y : ℕ) × (calls ≡ two_rounds first z0 z1 z2)
        × (input ≡ some (y ∷ []))
        × (eq f y 0 ≡ true)
        × (output ≡ first.output_share)
  unfolding prepare_step
  finished first step calls input output is_ready (at_start ec es) e =
      let went : step_by f first ready input ≡ finish output =
        ap (λ k. step_by f first k input) (sym is_ready)
        ∙ ap (λ (s : Poplar1PrepareStep). step_by f s s.sketch input) (sym es)
        ∙ e in
      absurd ((finish_early first input output).0 went)
  finished first step calls input output is_ready (after_one ec es) e =
      let went : step_by f (in_state round_one first) round_one input ≡ finish output =
        ap (λ (s : Poplar1PrepareStep). step_by f s s.sketch input) (sym es) ∙ e in
      absurd ((finish_early (in_state round_one first) input output).1 went)
  finished first step calls input output is_ready (after_two z0 z1 z2 ec es) e =
      let went : step_by f (in_state round_two first) round_two input ≡ finish output =
        ap (λ (s : Poplar1PrepareStep). step_by f s s.sketch input) (sym es) ∙ e in
      let (y, ei, zero_y, eo) = finish_two (in_state round_two first) input output went in
      (z0, z1, z2, y, ec, ei, zero_y, eo)

  -- From a step that is ready, whatever messages come, an output share is returned only by the call
  -- after exactly two rounds: in the first no message was taken and the step's z was sent, in the
  -- second a message of three elements was taken and the aggregator's value of the polynomial at them
  -- was sent, and the last message is one element that equals 0. The output share is the step's own.
  pub Reaches-IsSketched :
      (first step : Poplar1PrepareStep) (calls : List (Option (List ℕ) × List ℕ))
      (input : Option (List ℕ)) (output : List ℕ)
      → first.sketch ≡ ready
      → Reaches first step calls
      → prepare_step f step input ≡ finish output
      → (z0 z1 z2 y : ℕ) × (calls ≡ two_rounds first z0 z1 z2)
        × (input ≡ some (y ∷ []))
        × (eq f y 0 ≡ true)
        × (output ≡ first.output_share)
  Reaches-IsSketched first step calls input output is_ready r e =
      finished first step calls input output is_ready (reached first step calls is_ready r) e
