-- ===== src/Prio3/Views.antt =====
-- What the aggregators see of a client's messages in src/vdaf/prio3.rs, and what these are worth to
-- all of them together.
use libprio_rs.Common.{ℕ, suc, ◌<◌, ◌≡◌, List, [], ◌∷◌, length, All, replicate}
use libprio_rs.Outcome.{ok}
use libprio_rs.Field.{FieldType}
use libprio_rs.Field.Codec.{IsFieldType}
use libprio_rs.Field.Elementwise.{IsVector}
use libprio_rs.Field.Sums.{add_all}
use libprio_rs.Flp.{FlpType}
use libprio_rs.Prg.{Prg, uninitialized}
use libprio_rs.Vdaf.{VdafError}
use libprio_rs.Prio3.{Prio3InputShare, expand_share}
use libprio_rs.Prio3.Shard.{when_joint}
use libprio_rs.Prio3.Prepare.{joint_randomness}
use libprio_rs.Prio3.Hints.{xor_all}

module _ (f : FieldType) (ok_f : IsFieldType f) {State Stream : Type 0} (prg : Prg State Stream)
    (l fuel : ℕ) {Measurement : Type 0} (typ : FlpType Measurement) where
  -- What the aggregator with the number `id` makes of its message: its shares of the input and of the
  -- proof, its share of the seed, and the seed and the elements of the joint randomness.
  abbrev pub IsSeen :
      (joint joint_rand : List ℕ) (id : ℕ) → Prio3InputShare → (input proof hint : List ℕ) → Type 0
  IsSeen joint joint_rand id msg input proof hint =
      (expand_share f prg fuel {E = VdafError} id typ.input_len msg.input_share ≡ ok input)
      × (expand_share f prg fuel {E = VdafError} id typ.proof_len msg.proof_share ≡ ok proof)
      × (joint_randomness f prg l fuel {E = VdafError} typ.joint_rand_len id msg.joint_rand_param
            input
          ≡ ok
              (when_joint typ.joint_rand_len joint, when_joint typ.joint_rand_len hint, joint_rand))

  abbrev pub AllSeen :
      (joint joint_rand : List ℕ) (id : ℕ)
      → List Prio3InputShare
      → (inputs proofs hints : List (List ℕ)) → Type 0
  AllSeen joint joint_rand id (msg ∷ msgs) (xs ∷ inputs) (zs ∷ proofs) (h ∷ hints) =
      IsSeen joint joint_rand id msg xs zs h
      × AllSeen joint joint_rand (suc id) msgs inputs proofs hints
  AllSeen joint joint_rand id [] [] [] [] = Unit {0}
  AllSeen joint joint_rand id _ _ _ _ = ⊥

  -- What a measurement's messages are worth to all the aggregators together.
  pub record IsShared (measurement : Measurement) (num_aggregators : ℕ)
      (msgs : List Prio3InputShare) : Type 0 where
    pub input : List ℕ
    pub proof : List ℕ
    pub prove_rand : List ℕ
    pub joint : List ℕ
    pub joint_rand : List ℕ
    pub inputs : List (List ℕ)
    pub proofs : List (List ℕ)
    pub hints : List (List ℕ)
    pub encoded : typ.encode measurement ≡ ok input
    pub proved : typ.prove input prove_rand joint_rand ≡ ok proof
    pub seen : AllSeen joint joint_rand 0 msgs inputs proofs hints
    pub inputs_whole : All (IsVector f typ.input_len) inputs
    pub proofs_whole : All (IsVector f typ.proof_len) proofs
    pub input_back : add_all f (replicate typ.input_len 0) inputs ≡ input
    pub proof_back : add_all f (replicate typ.proof_len 0) proofs ≡ proof
    pub joint_back : xor_all (uninitialized l) hints ≡ joint
    pub one_each : length inputs ≡ num_aggregators
    pub someone : 0 < num_aggregators
