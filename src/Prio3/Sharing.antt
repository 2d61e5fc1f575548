-- ===== src/Prio3/Sharing.antt =====
-- What the aggregators see of the messages that `shard_with_rand_source` of src/vdaf/prio3.rs makes.
use libprio_rs.Common.{
  ℕ, zero, suc, ◌+◌, ◌*◌, ◌≤◌, ◌<◌, ◌≡◌, refl, ap, List, [], ◌∷◌, arith, map, All, replicate,
}
use libprio_rs.Common.Xor.{xor_each}
use libprio_rs.Outcome.{ok, >>=-eq-ok, map_err, map_err-eq-ok}
use libprio_rs.Field.{FieldType, add_each}
use libprio_rs.Field.Codec.{IsFieldType}
use libprio_rs.Field.Elementwise.{IsVector}
use libprio_rs.Field.Sums.{add_all, zeros-add_each}
use libprio_rs.Flp.{FlpType}
use libprio_rs.Prg.{Prg, RandSource, xor_accumulate, uninitialized}
use libprio_rs.Vdaf.{VdafError}
use libprio_rs.Prio3.{
  Prio3, HelperShare, Prio3InputShare, vers_prio3, draw_seed, expand, expand_share,
}
use libprio_rs.Prio3.Shard.{
  minus_one, helper_message, leader_message, when_joint, derive_hint, share_input, share_proof,
  output_messages, prove_shares, shard_with_rand_source,
}
use libprio_rs.Prio3.Views.{AllSeen, IsShared}
use libprio_rs.Prio3.Hints.{
  xor_all-IsSeed, xor_all-xor_each, IsSeed, uninitialized-IsSeed, derive_hint-IsSeed,
  joint_randomness_lem, xor_each-IsSeed, expand-IsVector,
}
use libprio_rs.Prio3.Loops.{
  IsHelped, IsProved, IsInputShared, IsProofShared, share_input_lem, share_proof_lem,
}

module _ (f : FieldType) (ok_f : IsFieldType f) {State Stream : Type 0} (prg : Prg State Stream)
    (l fuel : ℕ) {Measurement : Type 0} (typ : FlpType Measurement) where
  module _ (joint joint_rand : List ℕ) (hj : IsSeed l joint)
      (taken : expand f prg fuel {E = VdafError} joint vers_prio3 typ.joint_rand_len
        ≡ ok joint_rand) where
    helpers_seen :
        (id : ℕ) (before after : List HelperShare) (inputs hints proofs : List (List ℕ))
        → IsHelped f ok_f prg l fuel typ.input_len id before inputs hints
        → IsProved f ok_f prg l fuel typ.proof_len id joint before after proofs
        → All (IsSeed l) hints
        → AllSeen f ok_f prg l fuel typ joint joint_rand id
            (map (helper_message typ.joint_rand_len) after)
            inputs
            proofs
            hints
    unfolding expand_share
    helpers_seen id [] [] [] [] [] h p s = tt
    helpers_seen id (b ∷ before) (a ∷ after) (xs ∷ inputs) (hint ∷ hints) (zs ∷ proofs)
          (ex, eh, ed, h) (ez, ea, p) (sh, s) =
        let seen =
          joint_randomness_lem f ok_f prg l fuel typ.joint_rand_len id b.joint_rand_param.blind xs
            hint joint joint_rand ed sh hj taken in
        (rw (ea, eh) (ex, ez, seen), helpers_seen (suc id) before after inputs hints proofs h p s)
    helpers_seen id before after inputs hints proofs h p s = ground arith

  p_positive : 0 < f.fp.p
  p_positive = omega (arith, ok_f.parameters.r2_lt)

  -- The sum from zeros on is the sum from the leader's share on.
  from_leader :
      (n : ℕ) (first : List ℕ) (rest : List (List ℕ)) (whole : List ℕ)
      → IsVector f n first
      → add_all f first rest ≡ whole
      → add_all f (replicate n 0) (first ∷ rest) ≡ whole
  from_leader n first rest whole (len, h) e =
      let start = zeros-add_each f ok_f.p_lt_word p_positive first h in
      let start' : add_each f (replicate n 0) first ≡ first = rw len at start in rw start' e

  all-IsShared :
      (measurement : Measurement) (helpers : ℕ)
      (input proof prove_rand joint joint' joint_rand left left' blind : List ℕ)
      (before after : List HelperShare)
      → typ.encode measurement ≡ ok input
      → typ.prove input prove_rand joint_rand ≡ ok proof
      → IsInputShared f ok_f prg l fuel typ.input_len 1 helpers input
          (uninitialized l)
          left
          joint
          before
      → joint' ≡ xor_each joint (derive_hint f prg l blind 0 left)
      → expand f prg fuel {E = VdafError} joint' vers_prio3 typ.joint_rand_len ≡ ok joint_rand
      → IsProofShared f ok_f prg l fuel typ.proof_len 1 joint' proof left' before after
      → IsShared f ok_f prg l fuel typ measurement (suc helpers) (
          leader_message left left' (
            when_joint typ.joint_rand_len (record {
              seed_hint = xor_each (derive_hint f prg l blind 0 left) joint';
              blind = blind;
            }))
          ∷ map (helper_message typ.joint_rand_len) after)
  unfolding expand_share
  all-IsShared measurement helpers input proof prove_rand joint joint' joint_rand left left' blind
        before after encoded proved si ej taken sp =
      let hint = derive_hint f prg l blind 0 left in
      let hh = derive_hint-IsSeed f ok_f prg l fuel blind 0 left in
      let hu = uninitialized-IsSeed l in
      let hj₀ : IsSeed l joint =
        rw si.joint_back (xor_all-IsSeed l (uninitialized l) si.hints hu) in
      let hj : IsSeed l joint' = rw ej (xor_each-IsSeed l joint hint hj₀) in
      record {
        input = input;
        proof = proof;
        prove_rand = prove_rand;
        joint = joint';
        joint_rand = joint_rand;
        inputs = left ∷ si.inputs;
        proofs = left' ∷ sp.proofs;
        hints = hint ∷ si.hints;
        encoded = encoded;
        proved = proved;
        seen = (
          (
            refl,
            refl,
            joint_randomness_lem f ok_f prg l fuel typ.joint_rand_len 0 blind left hint joint'
                joint_rand refl hh hj taken,
          ),
          helpers_seen joint' joint_rand hj taken 1 before after si.inputs si.hints sp.proofs
              si.helped sp.proved si.hints_whole,
        );
        inputs_whole = (si.left_whole, si.inputs_whole);
        proofs_whole = (sp.left_whole, sp.proofs_whole);
        input_back = from_leader typ.input_len left si.inputs input si.left_whole si.input_back;
        proof_back = from_leader typ.proof_len left' sp.proofs proof sp.left_whole sp.proof_back;
        joint_back = rw ej (
            rw si.joint_back
              (xor_all-xor_each l (uninitialized l) hint si.hints hu hh si.hints_whole));
        one_each = ap suc si.inputs_count;
        someone = omega arith;
      }

module _ (f : FieldType) (ok_f : IsFieldType f) {State Stream : Type 0} (prg : Prg State Stream)
    (l fuel : ℕ) {Measurement : Type 0} (self : Prio3 Measurement)
    (few : self.num_aggregators ≤ 254) where
  open self use {typ, num_aggregators}

  minus_one_lem {ℓ} : {E : Type ℓ} (n m : ℕ) → minus_one {E = E} n ≡ ok m → n ≡ suc m
  minus_one_lem zero m e = cc
  minus_one_lem (suc n) m e = let same : n ≡ m = cc e in ap suc same

  as_returned :
      (measurement : Measurement) (helpers : ℕ) (msgs made : List Prio3InputShare)
      → num_aggregators ≡ suc helpers
      → IsShared f ok_f prg l fuel typ measurement (suc helpers) made
      → made ≡ msgs
      → IsShared f ok_f prg l fuel typ measurement num_aggregators msgs
  as_returned measurement helpers msgs made count shared same = rw (← same, count) shared

  output_messages_lem :
      (measurement : Measurement) (helpers : ℕ)
      (input proof prove_rand joint joint' joint_rand left blind : List ℕ)
      (before : List HelperShare) (msgs : List Prio3InputShare)
      → num_aggregators ≡ suc helpers
      → typ.encode measurement ≡ ok input
      → typ.prove input prove_rand joint_rand ≡ ok proof
      → IsVector f typ.proof_len proof
      → IsInputShared f ok_f prg l fuel typ.input_len 1 helpers input
          (uninitialized l)
          left
          joint
          before
      → joint' ≡ xor_each joint (derive_hint f prg l blind 0 left)
      → expand f prg fuel {E = VdafError} joint' vers_prio3 typ.joint_rand_len ≡ ok joint_rand
      → output_messages f prg l fuel self left
          (derive_hint f prg l blind 0 left)
          blind
          joint'
          before
          proof
        ≡ ok msgs
      → IsShared f ok_f prg l fuel typ measurement num_aggregators msgs
  unfolding output_messages xor_accumulate
  output_messages_lem measurement helpers input proof prove_rand joint joint' joint_rand left blind
        before msgs count encoded proved hz si ej taken e =
      let ((left', after), second, last) =
        >>=-eq-ok (share_proof f prg l fuel typ.proof_len 0 joint' before proof) _ e in
      let sp =
        share_proof_lem f ok_f prg l fuel typ.proof_len 0 joint' before proof left' after hz
          (omega (arith, si.shares_count, count)) second in
      as_returned measurement helpers msgs _ count
        (all-IsShared f ok_f prg l fuel typ measurement helpers input proof prove_rand joint joint'
          joint_rand left left' blind before after encoded proved si ej taken sp)
        (cc last)

  prove_shares_lem {ℓ} :
      {E : Type ℓ} (rand_source : RandSource E) (measurement : Measurement) (helpers k : ℕ)
      (input joint left : List ℕ) (before : List HelperShare) (msgs : List Prio3InputShare)
      → num_aggregators ≡ suc helpers
      → typ.encode measurement ≡ ok input
      → IsInputShared f ok_f prg l fuel typ.input_len 1 helpers input
          (uninitialized l)
          left
          joint
          before
      → ((prove_rand joint_rand proof : List ℕ)
          → IsVector f typ.prove_rand_len prove_rand
          → IsVector f typ.joint_rand_len joint_rand
          → typ.prove input prove_rand joint_rand ≡ ok proof
          → IsVector f typ.proof_len proof)
      → prove_shares f prg l fuel self rand_source k input left joint before ≡ ok msgs
      → IsShared f ok_f prg l fuel typ measurement num_aggregators msgs
  unfolding prove_shares xor_accumulate
  prove_shares_lem rand_source measurement helpers k input joint left before msgs count encoded si
        whole e =
      let (blind, _, e₄) = >>=-eq-ok (draw_seed l rand_source k) _ e in
      let joint' = xor_each joint (derive_hint f prg l blind 0 left) in
      let (joint_rand, taken, e₅) =
        >>=-eq-ok (expand f prg fuel joint' vers_prio3 typ.joint_rand_len) _ e₄ in
      let (prove_seed, _, e₆) = >>=-eq-ok (draw_seed l rand_source (k + 1)) _ e₅ in
      let (prove_rand, drawn, e₇) =
        >>=-eq-ok (expand f prg fuel prove_seed vers_prio3 typ.prove_rand_len) _ e₆ in
      let (proof, proved, last) =
        >>=-eq-ok (map_err _ (typ.prove input prove_rand joint_rand)) _ e₇ in
      let proved' = map_err-eq-ok _ (typ.prove input prove_rand joint_rand) proved in
      let hr = expand-IsVector f ok_f prg l fuel prove_seed vers_prio3 typ.prove_rand_len _ drawn in
      let hj = expand-IsVector f ok_f prg l fuel joint' vers_prio3 typ.joint_rand_len _ taken in
      output_messages_lem measurement helpers input proof prove_rand joint joint' joint_rand left
        blind before msgs count encoded proved' (whole prove_rand joint_rand proof hr hj proved') si
        refl taken last

  -- For at most 254 aggregators and a measurement that `encode` makes a reduced vector of `input_len`
  -- elements, of which `prove`, on reduced vectors of prover and joint randomness of the type's
  -- lengths, returns none but reduced vectors of `proof_len` elements: the messages
  -- that sharding returns are one for each aggregator, and with them the aggregators hold additive
  -- shares of the encoded measurement and of its proof, and all come to the joint randomness that the
  -- client proved with: each sees the same seed, and the XOR of their shares of the seed is that seed.
  pub shard-IsShared {ℓ} :
      {E : Type ℓ} (measurement : Measurement) (encoding : List ℕ) (rand_source : RandSource E)
      (msgs : List Prio3InputShare)
      → typ.encode measurement ≡ ok encoding
      → IsVector f typ.input_len encoding
      → ((prove_rand joint_rand proof : List ℕ)
          → IsVector f typ.prove_rand_len prove_rand
          → IsVector f typ.joint_rand_len joint_rand
          → typ.prove encoding prove_rand joint_rand ≡ ok proof
          → IsVector f typ.proof_len proof)
      → shard_with_rand_source f prg l fuel self measurement rand_source ≡ ok msgs
      → IsShared f ok_f prg l fuel typ measurement num_aggregators msgs
  unfolding shard_with_rand_source
  shard-IsShared measurement encoding rand_source msgs he hi hp e =
      let (helpers, some_helpers, e₂) = >>=-eq-ok (minus_one num_aggregators) _ (rw he at e) in
      let ((left, joint, before), first, last) =
        >>=-eq-ok
          (share_input f prg l fuel rand_source typ.input_len 0 1 helpers encoding
            (uninitialized l))
          _ e₂ in
      prove_shares_lem rand_source measurement helpers (3 * helpers) encoding joint left before msgs
        (minus_one_lem num_aggregators helpers some_helpers) he
        (share_input_lem f ok_f prg l fuel rand_source typ.input_len 0 1 helpers encoding
          (uninitialized l) left joint before hi first)
        hp last
