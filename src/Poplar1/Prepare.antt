-- ===== src/Poplar1/Prepare.antt =====
-- src/vdaf/poplar1.rs: how the aggregators sketch their shares of a report and check the sketch.
use libprio_rs.Common.{
  ℕ, ◌+◌, Bool, true, false, List, [], ◌∷◌, Option, some, none, ltb, ◌==◌, if◌then◌else◌, length,
}
use libprio_rs.Outcome.{Outcome, ok, err, panicked, ◌>>=◌, ◌>>◌, guard}
use libprio_rs.Field.{FieldType, index, plus, minus, times, eq, add_each}
use libprio_rs.Prg.{Prg}
use libprio_rs.Prng.{Prng, get, take_elements}
use libprio_rs.Vdaf.{
  VdafError, uncategorized, prefixes_differ, prefix_set_empty, unexpected_message_length,
  unexpected_message_count, invalid_state_transition, output_is_invalid, PrepareTransition,
  continue, finish, fail, Share, leader, helper,
}
use libprio_rs.Poplar1.{
  IdpfInput, Idpf, Poplar1InputShare, Poplar1VerifyParam, SketchState, ready, round_one, round_two,
  Poplar1PrepareStep, element_one, usize_add, usize_mul,
}
use libprio_rs.Poplar1.Shard.{prng_of}

-- The loop of `get_level`, whose variable `level` has a value from the first prefix on.
unfoldable pub level_loop : Option ℕ → List IdpfInput → Outcome VdafError (Option ℕ)
level_loop level [] = ok level
level_loop (some l) (node ∷ agg_param) = do
  guard (node.level == l) (uncategorized prefixes_differ)
  level_loop (some l) agg_param
level_loop none (node ∷ agg_param) = level_loop (some node.level) agg_param

unfoldable pub level_or_empty : Option ℕ → Outcome VdafError ℕ
level_or_empty (some level) = ok level
level_or_empty none = err (uncategorized prefix_set_empty)

unfoldable pub get_level : List IdpfInput → Outcome VdafError ℕ
get_level agg_param = level_loop none agg_param >>= level_or_empty

-- `count += 1` of an `i32`.
abbrev pub count_more {ℓ} : {E : Type ℓ} → ℕ → Outcome E ℕ
count_more count = if ltb count 0x7fff_ffff then ok (count + 1) else panicked

module _ (f : FieldType) {State Stream : Type 0} (prg : Prg State Stream) (fuel : ℕ) where
  -- The loop over the prefixes: z, and the output share.
  unfoldable pub sketch_loop :
      {Key : Type 0}
      → Idpf Key
      → Key
      → List IdpfInput
      → Prng Stream
      → ℕ × ℕ × ℕ
      → Outcome VdafError ((ℕ × ℕ × ℕ) × List ℕ)
  sketch_loop idpf key [] verify_rand z = ok (z, [])
  sketch_loop idpf key (node ∷ agg_param) verify_rand (z0, z1, z2) = do
    (v, k) ← idpf.eval key node
    (r, verify_rand') ← get f prg fuel verify_rand
    let tmp = times f r v
    (z', output_share) ←
        sketch_loop idpf key agg_param verify_rand'
          (plus f z0 tmp, plus f z1 (times f r tmp), plus f z2 (times f r k))
    ok (z', v ∷ output_share)

  -- `prng.skip(n)`, and the elements behind.
  unfoldable pub skip {ℓ} : {E : Type ℓ} → ℕ → Prng Stream → Outcome E (Prng Stream)
  skip n s = do (xs, s') ← take_elements f prg fuel n s; ok s'

  -- The blind shares added to z.
  unfoldable pub blind {ℓ} : {E : Type ℓ} → ℕ → List ℕ → ℕ × ℕ × ℕ → Outcome E (ℕ × ℕ × ℕ)
  blind level seed (z0, z1, z2) = do
    n ← usize_mul 3 level
    s ← skip n (prng_of f prg fuel seed [])
    (a, s₁) ← get f prg fuel s
    (b, s₂) ← get f prg fuel s₁
    (c, s₃) ← get f prg fuel s₂
    ok (plus f z0 a, plus f z1 b, plus f z2 c)

  -- The aggregator's shares of A and B.
  unfoldable pub next_shares {ℓ} : {E : Type ℓ} → ℕ → Share → Outcome E (ℕ × ℕ)
  next_shares level (leader share_data) = do
    n ← usize_mul 2 level
    d ← index share_data n
    n' ← usize_add n 1
    e ← index share_data n'
    ok (d, e)
  next_shares level (helper seed) = do
    n ← usize_mul 2 level
    s ← skip n (prng_of f prg fuel seed [])
    (d, s₁) ← get f prg fuel s
    (e, s₂) ← get f prg fuel s₁
    ok (d, e)

  unfoldable pub leader_factor {ℓ} : {E : Type ℓ} → Bool → Outcome E ℕ
  leader_factor true = element_one f
  leader_factor false = ok 0

  unfoldable pub prepare_init :
      {Key : Type 0}
      → Idpf Key
      → Poplar1VerifyParam
      → List IdpfInput
      → List ℕ
      → Poplar1InputShare Key
      → Outcome VdafError Poplar1PrepareStep
  prepare_init idpf verify_param agg_param nonce input_share = do
    level ← get_level agg_param
    (z, output_share) ←
        sketch_loop idpf input_share.idpf agg_param
          (prng_of f prg fuel verify_param.rand_init nonce) (0, 0, 0)
    z' ← blind level input_share.sketch_start_seed z
    (d, e) ← next_shares level input_share.sketch_next
    x ← leader_factor verify_param.is_leader
    ok (record { sketch = ready; output_share = output_share; z = z'; d = d; e = e; x = x })

module _ (f : FieldType) where
  -- The loop of `prepare_preprocess`: the sum of the messages, and their count.
  unfoldable pub preprocess_loop :
      List (List ℕ) → Option (List ℕ) → ℕ → Outcome VdafError (Option (List ℕ) × ℕ)
  preprocess_loop [] output count = ok (output, count)
  preprocess_loop (share ∷ inputs) (some sum) count = do
    count' ← count_more count
    guard (length share == length sum)
        (uncategorized (unexpected_message_length (length share) (length sum)))
    preprocess_loop inputs (some (add_each f sum share)) count'
  preprocess_loop (share ∷ inputs) none count = do
    count' ← count_more count
    preprocess_loop inputs (some share) count'

  -- `output.unwrap()`
  unfoldable pub unwrap_output : Option (List ℕ) → Outcome VdafError (List ℕ)
  unwrap_output (some sum) = ok sum
  unwrap_output none = panicked

  unfoldable pub prepare_preprocess : List (List ℕ) → Outcome VdafError (List ℕ)
  prepare_preprocess inputs = do
    (output, count) ← preprocess_loop inputs none 0
    guard (count == 2) (uncategorized (unexpected_message_count count 2))
    unwrap_output output

  -- The polynomial of the sketch at an aggregator's shares.
  unfoldable pub y_share : Poplar1PrepareStep → (z0 z1 z2 : ℕ) → ℕ
  y_share state z0 z1 z2 =
      plus f (plus f (times f state.d z0) state.e)
        (times f state.x (minus f (minus f (times f z0 z0) z1) z2))

  abbrev pub refuse : (got want : ℕ) → PrepareTransition Poplar1PrepareStep (List ℕ) (List ℕ)
  refuse got want = fail (uncategorized (unexpected_message_length got want))

  -- The arm of `(RoundOne, Some(msg))`.
  unfoldable pub second_round :
      Poplar1PrepareStep → List ℕ → PrepareTransition Poplar1PrepareStep (List ℕ) (List ℕ)
  second_round state (z0 ∷ z1 ∷ z2 ∷ []) =
      continue (record state { sketch = round_two }) (y_share state z0 z1 z2 ∷ [])
  second_round state [] = refuse 0 3
  second_round state (z0 ∷ []) = refuse 1 3
  second_round state (z0 ∷ z1 ∷ []) = refuse 2 3
  second_round state (z0 ∷ z1 ∷ z2 ∷ z3 ∷ msg) = refuse (length msg + 4) 3

  -- The arm of `(RoundTwo, Some(msg))`.
  unfoldable pub last_round :
      Poplar1PrepareStep → List ℕ → PrepareTransition Poplar1PrepareStep (List ℕ) (List ℕ)
  last_round state (y ∷ []) =
      if eq f y 0 then finish state.output_share else fail (uncategorized (output_is_invalid y))
  last_round state [] = refuse 0 1
  last_round state (y ∷ y' ∷ msg) = refuse (length msg + 2) 1

  unfoldable pub step_by :
      Poplar1PrepareStep
      → SketchState
      → Option (List ℕ)
      → PrepareTransition Poplar1PrepareStep (List ℕ) (List ℕ)
  step_by state ready none =
      let (z0, z1, z2) = state.z in
      continue (record state { sketch = round_one }) (z0 ∷ z1 ∷ z2 ∷ [])
  step_by state round_one (some msg) = second_round state msg
  step_by state round_two (some msg) = last_round state msg
  step_by state ready (some msg) = fail (uncategorized invalid_state_transition)
  step_by state round_one none = fail (uncategorized invalid_state_transition)
  step_by state round_two none = fail (uncategorized invalid_state_transition)

  unfoldable pub prepare_step :
      Poplar1PrepareStep → Option (List ℕ) → PrepareTransition Poplar1PrepareStep (List ℕ) (List ℕ)
  prepare_step state input = step_by state state.sketch input
