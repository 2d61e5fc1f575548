-- ===== src/Tests/Rounds.antt =====
-- src/prng.rs, and the messages and the rounds of src/vdaf/prio3.rs, on concrete inputs.
use libprio_rs.Common.{
  ℕ, ◌+◌, ◌^◌, ◌<◌, ◌≡◌, refl, ◌⊎◌, arith, List, [], ◌∷◌, some, none, true, length, map, replicate,
  All,
}
use libprio_rs.Outcome.{ok, diverged}
use libprio_rs.Field.{field32}
use libprio_rs.Field.Codec.{field32-IsFieldType}
use libprio_rs.Field.Sums.{add_all}
use libprio_rs.Prg.{seed_eq, differences}
use libprio_rs.Prg.Equality.{seed_eq_iff}
use libprio_rs.Prng.{Prng, from_seed_stream, take_elements}
use libprio_rs.Prng.Reading.{
  IsReady, pending, draw_all, from_seed_stream-IsReady, take_elements-draw_all,
}
use libprio_rs.Vdaf.{VdafError, leader, helper, finish}
use libprio_rs.Prio3.{
  Prio3VerifyParam, Prio3InputShare, Prio3PrepareMessage, ready, waiting, Prio3PrepareStep,
  expand_share, verify_param,
}
use libprio_rs.Prio3.Messages.{
  encode_input_share, decode_input_share, encode_prepare_message, decode_prepare_message,
  encode_prepare_step, decode_prepare_step,
}
use libprio_rs.Prio3.MessageCodec.{IsEncoding, input_share-IsEncoding}
use libprio_rs.Prio3.StepCodec.{prepare-IsEncoding}
use libprio_rs.Prio3.Prepare.{prepare_step, step_by, finish_step, check_joint}
use libprio_rs.Prio3.Transitions.{Reaches, start, next, IsVerified, Reaches-IsVerified}
use libprio_rs.Prio3.Aggregate.{unshard, result_vec_try_from}
use libprio_rs.Prio3.Totals.{aggregate_each, unshard-aggregate}
use libprio_rs.Tests.Prio3.{repeating, two}
use mathlib.Core.List.{Permᴰ, flatten}
use mathlib.Core.Logic.{◌↔◌}

abbrev generator : Prng ℕ
generator = from_seed_stream field32 repeating 300

generator-IsReady : IsReady field32 field32-IsFieldType repeating generator
generator-IsReady = from_seed_stream-IsReady field32 field32-IsFieldType repeating 300

take_elements-draw_all_example :
    ((take_elements field32 repeating {E = VdafError} 2 3 generator ≡ diverged)
      × (draw_all field32 field32-IsFieldType repeating {E = VdafError} 2 3
            (pending field32 field32-IsFieldType repeating generator generator-IsReady)
            generator.stream
          ≡ diverged))
    ⊎ ((xs : List ℕ) × (s' : Prng ℕ) × (r' : IsReady field32 field32-IsFieldType repeating s')
        × (take_elements field32 repeating {E = VdafError} 2 3 generator ≡ ok (xs, s'))
        × (draw_all field32 field32-IsFieldType repeating {E = VdafError} 2 3
              (pending field32 field32-IsFieldType repeating generator generator-IsReady)
              generator.stream
            ≡ ok (xs, pending field32 field32-IsFieldType repeating s' r', s'.stream))
        × (length xs ≡ 3)
        × All (λ x. x < field32.fp.p) xs
        × (s'.output_written ≡ generator.output_written + 3))
take_elements-draw_all_example =
    take_elements-draw_all field32 field32-IsFieldType repeating 2 3 generator generator-IsReady

abbrev one_seed : List ℕ
one_seed = 1 ∷ 255 ∷ []

abbrev other_seed : List ℕ
other_seed = 1 ∷ 254 ∷ []

seed_eq_iff_example : (seed_eq one_seed other_seed ≡ true) ↔ (one_seed ≡ other_seed)
seed_eq_iff_example = seed_eq_iff one_seed other_seed refl

abbrev helper_param : Prio3VerifyParam
helper_param = verify_param two (5 ∷ 5 ∷ 5 ∷ 5 ∷ []) 1

abbrev helper_share : Prio3InputShare
helper_share = record {
  input_share = helper (1 ∷ 1 ∷ 1 ∷ 1 ∷ []);
  proof_share = helper (2 ∷ 2 ∷ 2 ∷ 2 ∷ []);
  joint_rand_param =
      some (record { seed_hint = 58 ∷ 58 ∷ 58 ∷ 58 ∷ []; blind = 3 ∷ 3 ∷ 3 ∷ 3 ∷ [] });
}

input_share-IsEncoding_example :
    (w : List ℕ) × IsEncoding
      (encode_input_share field32)
      (decode_input_share field32 4 helper_param)
      helper_share
      (2 ^ 62)
      w
input_share-IsEncoding_example =
    input_share-IsEncoding field32 field32-IsFieldType 4 (omega arith) helper_param (omega arith)
      (omega arith) helper_share (omega arith, refl) (omega arith, refl) (omega arith, refl, refl)

abbrev leader_param : Prio3VerifyParam
leader_param = verify_param two (5 ∷ 5 ∷ 5 ∷ 5 ∷ []) 0

abbrev first_message : Prio3PrepareMessage
first_message = record {
  verifier = 2206472783 ∷ [];
  joint_rand_seed = some (58 ∷ 58 ∷ 58 ∷ 58 ∷ []);
}

abbrev leader_ready : Prio3PrepareStep
leader_ready = record {
  input_share = leader (1571513435 ∷ []);
  joint_rand_seed = some (55 ∷ 55 ∷ 55 ∷ 55 ∷ []);
  aggregator_id = 0;
  verifier_len = 1;
  state = ready first_message;
}

abbrev leader_waiting : Prio3PrepareStep
leader_waiting = record leader_ready { state = waiting }

prepare-IsEncoding_example :
    ((w : List ℕ) × IsEncoding
        (encode_prepare_step field32)
        (decode_prepare_step field32 4 leader_param)
        leader_waiting
        (2 ^ 62)
        w)
    × ((w : List ℕ) × IsEncoding
          (encode_prepare_message field32)
          (decode_prepare_message field32 4 leader_waiting)
          first_message
          (2 ^ 62)
          w)
prepare-IsEncoding_example =
    prepare-IsEncoding field32 field32-IsFieldType 4 (omega arith) leader_param leader_waiting
      first_message (omega arith) (omega arith) refl refl refl (refl, (refl, (omega arith, tt)))
      (omega arith, refl) (refl, (omega arith, tt)) (omega arith, refl)

abbrev combined : Prio3PrepareMessage
combined = record { verifier = 0 ∷ []; joint_rand_seed = some (55 ∷ 55 ∷ 55 ∷ 55 ∷ []) }

second_round : Reaches field32 repeating 4 1 two leader_ready leader_waiting
unfolding prepare_step step_by
second_round = next none first_message start refl

finishes :
    prepare_step field32 repeating 4 1 two leader_waiting (some combined)
    ≡ ok (finish (1571513435 ∷ []))
unfolding prepare_step step_by finish_step check_joint expand_share seed_eq differences
finishes = refl

Reaches-IsVerified_example :
    (msg : Prio3PrepareMessage) × (leader_waiting ≡ leader_waiting)
    × (some combined ≡ some msg)
    × IsVerified field32 repeating 4 1 two leader_ready msg (1571513435 ∷ [])
Reaches-IsVerified_example =
    Reaches-IsVerified field32 repeating 4 1 two leader_ready leader_waiting first_message
      (some combined) (1571513435 ∷ []) refl second_round finishes

-- Two reports with an output share of each of two aggregators.
abbrev by_aggregator : List (List (List ℕ))
by_aggregator = ((1 ∷ []) ∷ (2 ∷ []) ∷ []) ∷ ((3 ∷ []) ∷ (4293918720 ∷ []) ∷ []) ∷ []

abbrev by_report : List (List (List ℕ))
by_report = ((1 ∷ []) ∷ (3 ∷ []) ∷ []) ∷ ((2 ∷ []) ∷ (4293918720 ∷ []) ∷ []) ∷ []

dealt : Permᴰ (flatten by_aggregator) (flatten by_report)
unfolding flatten
dealt = Permᴰ.cons refl (Permᴰ.swap refl refl)

unshard-aggregate_example :
    (aggs : List (List ℕ)) × (aggregate_each field32 two by_aggregator ≡ ok aggs)
    × (unshard field32 two (result_vec_try_from field32) aggs
        ≡ result_vec_try_from field32
            (add_all field32 (replicate 1 0) (map (add_all field32 (replicate 1 0)) by_report)))
unshard-aggregate_example =
    unshard-aggregate field32 field32-IsFieldType two (result_vec_try_from field32) by_aggregator
      by_report dealt
      (
        ((refl, (omega arith, tt)), ((refl, (omega arith, tt)), tt)),
        (((refl, (omega arith, tt)), ((refl, (omega arith, tt)), tt)), tt),
      )
      (
        ((refl, (omega arith, tt)), ((refl, (omega arith, tt)), tt)),
        (((refl, (omega arith, tt)), ((refl, (omega arith, tt)), tt)), tt),
      )
