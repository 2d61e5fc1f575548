-- ===== src/Tests/Prio3.antt =====
-- src/vdaf/prio3.rs on concrete inputs, with a generator and a proof system that are short to run.
use libprio_rs.Common.{
  ℕ, zero, suc, ◌+◌, ◌%◌, ◌<◌, ◌≡◌, refl, arith, List, [], ◌∷◌, ◌++◌, ltb, ◌==◌, if◌then◌else◌,
  length-replicate, replicate, All, some,
}
use libprio_rs.Outcome.{ok, err}
use libprio_rs.Field.{
  field32, sub_each, to_bytes, try_from_random, try_from_bytes, load_loop, store_loop,
}
use libprio_rs.Fp.{residue, mul, montgomery, sub}
use libprio_rs.Field.Codec.{field32-IsFieldType}
use libprio_rs.Field.Elementwise.{IsVector}
use libprio_rs.Flp.{FlpType, encode_error}
use libprio_rs.Prg.{from_rand_source, uninitialized, xor_accumulate, xor, into_seed, seed_stream}
use libprio_rs.Prng.{from_seed_stream, take_elements, get, serve, seek, accept, found_or}
use libprio_rs.Prio3.Sharing.{shard-IsShared}
use libprio_rs.Prio3.Views.{IsShared}
use libprio_rs.Prio3.Rounds.{prepare_all}
use libprio_rs.Prio3.Completeness.{IsJudged, shard-IsJudged}
use libprio_rs.Prio3.Prepare.{query_rand_seed, prepare_init, joint_randomness}
use libprio_rs.Prg.{Prg, RandSource}
use libprio_rs.Prio3.{
  Prio3, Prio3InputShare, Prio3PrepareStep, verify_params, vers_prio3, expand, absorb, expand_share,
  ready,
}
use libprio_rs.Vdaf.{VdafError, leader, helper}
use libprio_rs.Prio3.Shard.{
  shard_with_rand_source, share_input, prove_shares, output_messages, share_proof,
  helper_from_rand_source, derive_hint,
}

-- A stream that repeats one byte, the sum of what its seed and its updates hold.
abbrev pub total : List ℕ → ℕ
total [] = 0
total (b ∷ bytes) = b + total bytes

pub repeated-bytes : (n b : ℕ) → b < 256 → All (λ x. x < 256) (replicate n b)
repeated-bytes zero b h = tt
repeated-bytes (suc n) b h = (h, repeated-bytes n b h)

abbrev pub repeating : Prg (List ℕ) ℕ
repeating = record {
  init = λ seed. seed;
  update = λ state bytes. state ++ bytes;
  into_seed_stream = λ state. total state;
  fill = λ s n. (replicate n (s % 128), s + 1);
  length-fill = λ s n. length-replicate n (s % 128);
  fill-bytes = λ s n. repeated-bytes n (s % 128) (omega arith);
}

-- Every number below p is a valid measurement, with a proof of one zero.
abbrev pub any_number : FlpType ℕ
any_number = record {
  encode = λ m. if ltb m field32.fp.p then ok (m ∷ []) else err encode_error;
  truncate = λ input. ok input;
  prove = λ input prove_rand joint_rand. ok (0 ∷ []);
  query = λ input proof query_rand joint_rand num_shares. ok proof;
  decide = λ verifier. ok (total verifier == 0);
  input_len = 1;
  proof_len = 1;
  verifier_len = 1;
  output_len = 1;
  joint_rand_len = 1;
  prove_rand_len = 1;
  query_rand_len = 1;
}

abbrev pub two : Prio3 ℕ
two = record { num_aggregators = 2; typ = any_number }

abbrev calls : RandSource ℕ
calls k n = ok (replicate n (k + 1))

whole_input : IsVector field32 1 (77 ∷ [])
whole_input = (refl, (omega arith, tt))

whole_proof :
    (prove_rand joint_rand proof : List ℕ)
    → IsVector field32 1 prove_rand
    → IsVector field32 1 joint_rand
    → any_number.prove (77 ∷ []) prove_rand joint_rand ≡ ok proof
    → IsVector field32 1 proof
whole_proof prove_rand joint_rand proof hr hj e =
    let same : 0 ∷ [] ≡ proof = cc e in rw (← same) (refl, (omega arith, tt))

abbrev pub messages : List Prio3InputShare
messages =
    record {
      input_share = leader (1571513435 ∷ []);
      proof_share = leader (2206472783 ∷ []);
      joint_rand_param =
          some (record { seed_hint = 13 ∷ 13 ∷ 13 ∷ 13 ∷ []; blind = 4 ∷ 4 ∷ 4 ∷ 4 ∷ [] });
    }
    ∷ record {
      input_share = helper (1 ∷ 1 ∷ 1 ∷ 1 ∷ []);
      proof_share = helper (2 ∷ 2 ∷ 2 ∷ 2 ∷ []);
      joint_rand_param =
          some (record { seed_hint = 58 ∷ 58 ∷ 58 ∷ 58 ∷ []; blind = 3 ∷ 3 ∷ 3 ∷ 3 ∷ [] });
    }
    ∷ []

sharded : shard_with_rand_source field32 repeating 4 1 two 77 calls ≡ ok messages
unfolding shard_with_rand_source share_input prove_shares output_messages share_proof
    helper_from_rand_source derive_hint expand absorb from_rand_source uninitialized xor_accumulate
    into_seed seed_stream from_seed_stream take_elements get serve seek accept found_or sub_each
    to_bytes try_from_random try_from_bytes load_loop store_loop residue mul montgomery sub
sharded = refl

shard-IsShared_example : IsShared field32 field32-IsFieldType repeating 4 1 any_number 77 2 messages
shard-IsShared_example =
    shard-IsShared field32 field32-IsFieldType repeating 4 1 two (omega arith) 77 (77 ∷ []) calls
      messages refl whole_input whole_proof sharded

abbrev steps : List Prio3PrepareStep
steps =
    record {
      input_share = leader (1571513435 ∷ []);
      joint_rand_seed = some (55 ∷ 55 ∷ 55 ∷ 55 ∷ []);
      aggregator_id = 0;
      verifier_len = 1;
      state =
          ready (record {
            verifier = 2206472783 ∷ [];
            joint_rand_seed = some (58 ∷ 58 ∷ 58 ∷ 58 ∷ []);
          });
    }
    ∷ record {
      input_share = helper (1 ∷ 1 ∷ 1 ∷ 1 ∷ []);
      joint_rand_seed = some (55 ∷ 55 ∷ 55 ∷ 55 ∷ []);
      aggregator_id = 1;
      verifier_len = 1;
      state =
          ready (record {
            verifier = 2087445938 ∷ [];
            joint_rand_seed = some (13 ∷ 13 ∷ 13 ∷ 13 ∷ []);
          });
    }
    ∷ []

abbrev key : List ℕ
key = 5 ∷ 5 ∷ 5 ∷ 5 ∷ []

prepared :
    prepare_all field32 repeating 4 1 two (9 ∷ []) (verify_params two key 0 2) messages ≡ ok steps
unfolding verify_params prepare_init joint_randomness query_rand_seed expand_share xor share_proof
    helper_from_rand_source derive_hint expand absorb from_rand_source uninitialized xor_accumulate
    into_seed seed_stream from_seed_stream take_elements get serve seek accept found_or sub_each
    to_bytes try_from_random try_from_bytes load_loop store_loop residue mul montgomery sub
prepared = refl

drawn :
    expand field32 repeating 1 {E = VdafError}
      (query_rand_seed field32 repeating 4 1 key (9 ∷ []))
      vers_prio3
      1
    ≡ ok (688543943 ∷ [])
unfolding query_rand_seed share_proof helper_from_rand_source derive_hint expand absorb
    from_rand_source uninitialized xor_accumulate into_seed seed_stream from_seed_stream
    take_elements get serve seek accept found_or sub_each to_bytes try_from_random try_from_bytes
    load_loop store_loop residue mul montgomery sub
drawn = refl

shard-IsJudged_example :
    IsJudged field32 field32-IsFieldType repeating 4 1 two 77 (688543943 ∷ []) messages steps
shard-IsJudged_example =
    shard-IsJudged field32 field32-IsFieldType repeating 4 1 two 77 (77 ∷ []) calls key (9 ∷ [])
      (688543943 ∷ []) messages steps (omega arith) refl whole_input whole_proof sharded drawn
      prepared (refl, (refl, tt))
