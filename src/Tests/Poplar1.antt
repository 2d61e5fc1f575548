-- ===== src/Tests/Poplar1.antt =====
-- src/vdaf/poplar1.rs on concrete inputs, with a generator that is short to run.
use libprio_rs.Common.{
  ℕ, zero, suc, ◌+◌, ◌%◌, ◌^◌, ◌<◌, ◌≡◌, refl, arith, List, [], ◌∷◌, some, none, true, false,
  length-replicate, replicate, All, map,
}
use libprio_rs.Outcome.{Outcome, ok}
use libprio_rs.Field.{
  field32, one, sub_each, try_from_random, try_from_bytes, load_loop, eq, split_vector, split_loop,
}
use libprio_rs.Field.Codec.{field32-IsFieldType}
use libprio_rs.Field.Elementwise.{IsVector}
use libprio_rs.Fp.{log2, leading_zeros, leading_zeros_of, residue, mul, montgomery, sub}
use libprio_rs.Fp.Element.{Represents, montgomery_reduced}
use libprio_rs.Prg.{RandSource, seed_stream}
use libprio_rs.Prng.{from_seed_stream, take_elements, get, serve, seek, accept, found_or}
use libprio_rs.Vdaf.{VdafError, finish, continue}
use libprio_rs.Poplar1.{
  IdpfInput, Poplar1InputShare, Poplar1PrepareStep, SketchState, ready, round_one, round_two,
  verify_param_new,
}
use libprio_rs.Poplar1.Agreement.{IsAgreed}
use libprio_rs.Poplar1.Completeness.{shard-IsAgreed}
use libprio_rs.Poplar1.Draws.{Draws}
use libprio_rs.Poplar1.Hits.{IsReport}
use libprio_rs.Poplar1.Input.{prefix, data_index, cmp, input_new}
use libprio_rs.Poplar1.InputBounds.{from_le, input_new-bounds}
use libprio_rs.Poplar1.Ordered.{IsOrdered}
use libprio_rs.Poplar1.Points.{IsInput, IsShared}
use libprio_rs.Poplar1.Prepare.{
  prepare_init, prepare_step, step_by, second_round, last_round, y_share,
}
use libprio_rs.Poplar1.Shard.{shard, prng_of}
use libprio_rs.Poplar1.Toy.{ToyIdpf, fill_tables, two_shares, gen, toy, max_input_len}
use libprio_rs.Poplar1.ToyContract.{toy-IsIdpf}
use libprio_rs.Poplar1.ToyPoints.{gen-IsShared}
use libprio_rs.Poplar1.Transitions.{start, next, Reaches-IsSketched, two_rounds}
use libprio_rs.Tests.Prio3.{repeating}
use libprio_rs.Tests.Wire.{reader}

-- Seventeen bits of three bytes.
input_new-bounds_example :
    (input_new (1 ∷ 2 ∷ 255 ∷ []) 17 ≡ ok (record { index = 66049; level = 17 }))
    × (from_le (1 ∷ 2 ∷ 255 ∷ []) % 2 ^ 17 < 2 ^ 17)
input_new-bounds_example =
    input_new-bounds (1 ∷ 2 ∷ 255 ∷ []) 17 (omega arith, (omega arith, (omega arith, tt)))
      (omega arith)

abbrev pub unit : ℕ
unit = 2564090464

one_of_field32 : one field32 ≡ ok unit
unfolding one
one_of_field32 = refl

pub unit-Represents : Represents field32.fp unit 1
unfolding montgomery mul
unit-Represents = montgomery_reduced field32.fp field32-IsFieldType.parameters 1 (omega arith)

longest : max_input_len field32 ≡ 18
unfolding max_input_len log2 leading_zeros leading_zeros_of
longest = refl

-- The input of the one bit 1, its values, and the keys with 5 for every random element.
abbrev pub input : IdpfInput
input = record { index = 1; level = 1 }

abbrev ks : List ℕ
ks = 7 ∷ 8 ∷ []

abbrev values : List (ℕ × ℕ)
values = map (λ k. (unit, k)) ks

abbrev fives : ℕ → ℕ → List ℕ
fives n k = replicate n 5

abbrev pub random : ℕ → ℕ → Outcome VdafError (List ℕ)
random n k = ok (fives n k)

pub fives-lt : (n : ℕ) → All (λ x. x < field32.fp.p) (replicate n 5)
fives-lt zero = tt
fives-lt (suc n) = (omega arith, fives-lt n)

fives-IsVector : (n k : ℕ) → IsVector field32 n (fives n k)
fives-IsVector n k = (length-replicate n 5, fives-lt n)

abbrev first_key : ToyIdpf
first_key = record {
  data0 = sub_each field32 (0 ∷ unit ∷ 0 ∷ unit ∷ []) (replicate 4 5);
  data1 = sub_each field32 (0 ∷ 7 ∷ 0 ∷ 8 ∷ []) (replicate 4 5);
  level = 1;
}

abbrev pub second_key : ToyIdpf
second_key = record { data0 = replicate 4 5; data1 = replicate 4 5; level = 1 }

made : gen field32 random random input values ≡ ok (first_key, second_key)
unfolding gen max_input_len log2 leading_zeros leading_zeros_of fill_tables prefix data_index
    split_vector split_loop two_shares sub_each sub
made = refl

one_bit : (i : ℕ) → i < 2 → IsInput (record { index = i; level = 1 })
one_bit i h = (omega arith, h)

gen-IsShared_example :
    (a b : ToyIdpf) × (gen field32 random random input values ≡ ok (a, b))
    × IsShared field32
        (toy field32 random random reader)
        a
        b
        (record { index = 0; level = 1 })
        (0, 0)
gen-IsShared_example =
    gen-IsShared field32 field32-IsFieldType random random fives fives (λ n k. refl) (λ n k. refl)
      fives-IsVector fives-IsVector reader input values (record { index = 0; level = 1 })
      (one_bit 1 (omega arith)) (omega (arith, longest)) (omega arith)
      ((omega arith, omega arith), ((omega arith, omega arith), tt)) (one_bit 0 (omega arith))
      (omega arith)

abbrev calls : RandSource ℕ
calls k n = ok (replicate n (k + 1))

abbrev pub nodes : List IdpfInput
nodes = record { index = 1; level = 1 } ∷ []

abbrev pub node : IdpfInput
node = record { index = 0; level = 1 }

pub nodes-IsOrdered : IsOrdered (node ∷ nodes)
unfolding cmp
nodes-IsOrdered = ((refl, tt), (tt, tt))

leader_drawn :
    Draws field32 repeating 1
      (prng_of field32 repeating 1 (1 ∷ 1 ∷ 1 ∷ 1 ∷ []) [])
      (replicate 6 3658959296)
unfolding seed_stream from_seed_stream take_elements get serve seek accept found_or try_from_random
    try_from_bytes load_loop montgomery mul
leader_drawn = (_, refl)

helper_drawn :
    Draws field32 repeating 1
      (prng_of field32 repeating 1 (2 ∷ 2 ∷ 2 ∷ 2 ∷ []) [])
      (replicate 6 3023999871)
unfolding seed_stream from_seed_stream take_elements get serve seek accept found_or try_from_random
    try_from_bytes load_loop montgomery mul
helper_drawn = (_, refl)

next_drawn :
    Draws field32 repeating 1
      (prng_of field32 repeating 1 (3 ∷ 3 ∷ 3 ∷ 3 ∷ []) [])
      (replicate 4 2389040446)
unfolding seed_stream from_seed_stream take_elements get serve seek accept found_or try_from_random
    try_from_bytes load_loop montgomery mul
next_drawn = (_, refl)

verify_drawn :
    Draws field32 repeating 1
      (prng_of field32 repeating 1 (1 ∷ 1 ∷ []) (2 ∷ []))
      (replicate 2 3658959296)
unfolding seed_stream from_seed_stream take_elements get serve seek accept found_or try_from_random
    try_from_bytes load_loop montgomery mul
verify_drawn = (_, refl)

shard-IsAgreed_example :
    (first second : Poplar1InputShare ToyIdpf) × (step_first : Poplar1PrepareStep)
    × (step_second : Poplar1PrepareStep) × (shard field32 repeating 1 4 calls
          (λ n. ok ks)
          (toy field32 random random reader)
          input
        ≡ ok (first ∷ second ∷ []))
    × (prepare_init field32 repeating 1
          (toy field32 random random reader)
          (verify_param_new (1 ∷ 1 ∷ []) true 1)
          (node ∷ nodes)
          (2 ∷ [])
          first
        ≡ ok step_first)
    × (prepare_init field32 repeating 1
          (toy field32 random random reader)
          (verify_param_new (1 ∷ 1 ∷ []) false 1)
          (node ∷ nodes)
          (2 ∷ [])
          second
        ≡ ok step_second)
    × IsAgreed field32 step_first step_second
    × IsReport field32 unit
        (node ∷ nodes)
        (input, step_first.output_share, step_second.output_share)
shard-IsAgreed_example =
    shard-IsAgreed field32 field32-IsFieldType repeating 1 (toy field32 random random reader) 4
      calls (λ n. ok ks) input ks (1 ∷ 1 ∷ 1 ∷ 1 ∷ []) (2 ∷ 2 ∷ 2 ∷ 2 ∷ []) (3 ∷ 3 ∷ 3 ∷ 3 ∷ [])
      (replicate 6 3658959296) (replicate 6 3023999871) (replicate 4 2389040446) unit first_key
      second_key 1 1 node nodes (1 ∷ 1 ∷ []) (2 ∷ []) (replicate 2 3658959296)
      (toy-IsIdpf field32 field32-IsFieldType random random fives fives (λ n k. refl) (λ n k. refl)
        fives-IsVector fives-IsVector reader)
      (one_bit 1 (omega arith)) refl refl (omega arith, (omega arith, tt)) one_of_field32
      unit-Represents refl refl refl refl refl refl leader_drawn helper_drawn next_drawn made
      (omega arith) ((refl, one_bit 0 (omega arith)), ((refl, one_bit 1 (omega arith)), tt))
      nodes-IsOrdered refl verify_drawn

-- A step whose sketch is of zeros, by way of both rounds.
abbrev first_step : Poplar1PrepareStep
first_step = record { sketch = ready; output_share = 5 ∷ []; z = (1, 2, 3); d = 0; e = 0; x = 0 }

abbrev in_round : SketchState → Poplar1PrepareStep
in_round sketch = record first_step { sketch = sketch }

went_one : prepare_step field32 first_step none ≡ continue (in_round round_one) (1 ∷ 2 ∷ 3 ∷ [])
unfolding prepare_step step_by
went_one = refl

went_two :
    prepare_step field32 (in_round round_one) (some (4 ∷ 5 ∷ 6 ∷ []))
    ≡ continue (in_round round_two) (y_share field32 first_step 4 5 6 ∷ [])
unfolding prepare_step step_by second_round y_share
went_two = refl

went_three : prepare_step field32 (in_round round_two) (some (0 ∷ [])) ≡ finish (5 ∷ [])
unfolding prepare_step step_by last_round eq residue mul
went_three = refl

Reaches-IsSketched_example :
    (z0 z1 z2 y : ℕ) × ((some (4 ∷ 5 ∷ 6 ∷ []), y_share field32 first_step 4 5 6 ∷ [])
        ∷ (none, 1 ∷ 2 ∷ 3 ∷ [])
        ∷ []
      ≡ two_rounds field32 first_step z0 z1 z2)
    × (some (0 ∷ []) ≡ some (y ∷ []))
    × (eq field32 y 0 ≡ true)
    × (5 ∷ [] ≡ first_step.output_share)
Reaches-IsSketched_example =
    Reaches-IsSketched field32 first_step (in_round round_two) _ (some (0 ∷ [])) (5 ∷ []) refl
      (next (some (4 ∷ 5 ∷ 6 ∷ [])) (y_share field32 first_step 4 5 6 ∷ [])
        (next none (1 ∷ 2 ∷ 3 ∷ []) start went_one) went_two)
      went_three
