-- ===== src/Prio3.antt =====
-- src/vdaf/prio3.rs: the data of Prio3, its set-up, and how its seeds stretch to elements. A
-- `Seed<L>` is a list of `l` bytes.
pub mod Shard
pub mod Prepare
pub mod Messages
pub mod Aggregate
pub mod Hints
pub mod Loops
pub mod Views
pub mod Sharing
pub mod Rounds
pub mod Queries
pub mod Finishing
pub mod Completeness
pub mod Totals
pub mod Transitions
pub mod MessageCodec
pub mod StepCodec
use libprio_rs.Common.{
  ℕ, zero, suc, ◌+◌, List, [], ◌∷◌, ◌++◌, Option, none, some, ltb, not, ◌==◌, if◌then◌else◌,
}
use libprio_rs.Outcome.{Outcome, ok, err, panicked, ◌>>=◌, ◌>>◌, guard, map_err}
use libprio_rs.Field.{FieldType, to_bytes}
use libprio_rs.Flp.{FlpType}
use libprio_rs.Prg.{Prg, RandSource, from_rand_source, seed_stream}
use libprio_rs.Prng.{from_seed_stream, take_elements}
use libprio_rs.Vdaf.{
  VdafError, uncategorized, get_random, too_few_aggregators, too_many_aggregators, Share, leader,
  helper,
}

-- `b"vdaf-00 prio3"`
abbrev pub vers_prio3 : List ℕ
vers_prio3 = 118 ∷ 100 ∷ 97 ∷ 102 ∷ 45 ∷ 48 ∷ 48 ∷ 32 ∷ 112 ∷ 114 ∷ 105 ∷ 111 ∷ 51 ∷ []

-- The version followed by an aggregator's number.
abbrev pub info : ℕ → List ℕ
info aggregator_id = vers_prio3 ++ (aggregator_id ∷ [])

unfoldable pub check_num_aggregators : ℕ → Outcome VdafError (Unit {0})
check_num_aggregators num_aggregators = do
  guard (not (num_aggregators == 0)) (uncategorized (too_few_aggregators num_aggregators))
  guard (not (ltb 254 num_aggregators)) (uncategorized (too_many_aggregators num_aggregators))
  ok tt

-- `unwrap`
abbrev pub unwrap {ℓ κ} : {E : Type ℓ} {A : Type κ} → Option A → Outcome E A
unwrap (some x) = ok x
unwrap none = panicked

pub record Prio3 (Measurement : Type 0) : Type 0 where
  pub num_aggregators : ℕ
  pub typ : FlpType Measurement

pub record JointRandParam : Type 0 where
  pub seed_hint : List ℕ
  pub blind : List ℕ

pub record HelperShare : Type 0 where
  pub input_share : List ℕ
  pub proof_share : List ℕ
  pub joint_rand_param : JointRandParam

pub record Prio3InputShare : Type 0 where
  pub input_share : Share
  pub proof_share : Share
  pub joint_rand_param : Option JointRandParam

pub record Prio3VerifyParam : Type 0 where
  pub query_rand_init : List ℕ
  pub aggregator_id : ℕ
  pub input_len : ℕ
  pub proof_len : ℕ
  pub verifier_len : ℕ
  pub joint_rand_len : ℕ

pub record Prio3PrepareMessage : Type 0 where
  pub verifier : List ℕ
  pub joint_rand_seed : Option (List ℕ)

pub data PrepareStep : Type 0 where
  ready : Prio3PrepareMessage → PrepareStep
  waiting : PrepareStep

pub record Prio3PrepareStep : Type 0 where
  pub input_share : Share
  pub joint_rand_seed : Option (List ℕ)
  pub aggregator_id : ℕ
  pub verifier_len : ℕ
  pub state : PrepareStep

-- The k-th call of the source, for a seed of `l` bytes.
abbrev pub draw_seed {ℓ} : {E : Type ℓ} → ℕ → RandSource E → ℕ → Outcome VdafError (List ℕ)
draw_seed l rand_source k = map_err (λ e. get_random) (from_rand_source l rand_source k)

module _ {Measurement : Type 0} (self : Prio3 Measurement) where
  abbrev pub verify_param : List ℕ → ℕ → Prio3VerifyParam
  verify_param query_rand_init aggregator_id = record {
    query_rand_init = query_rand_init;
    aggregator_id = aggregator_id;
    input_len = self.typ.input_len;
    proof_len = self.typ.proof_len;
    verifier_len = self.typ.verifier_len;
    joint_rand_len = self.typ.joint_rand_len;
  }

  -- The parameters of `n` aggregators, from a number on.
  unfoldable pub verify_params : List ℕ → ℕ → ℕ → List Prio3VerifyParam
  verify_params query_rand_init aggregator_id zero = []
  verify_params query_rand_init aggregator_id (suc n) =
      verify_param query_rand_init aggregator_id
      ∷ verify_params query_rand_init (suc aggregator_id) n

  unfoldable pub setup_with_rand_source {ℓ} :
      {E : Type ℓ} → ℕ → RandSource E → Outcome VdafError (List Prio3VerifyParam)
  setup_with_rand_source l rand_source = do
    query_rand_init ← draw_seed l rand_source 0
    ok (verify_params query_rand_init 0 self.num_aggregators)

  unfoldable pub output_len : ℕ
  output_len = self.typ.output_len

  unfoldable pub verifier_len : ℕ
  verifier_len = self.typ.verifier_len

module _ (f : FieldType) {State Stream : Type 0} (prg : Prg State Stream) where
  -- `deriver.update(&x.into())` for each element.
  unfoldable pub absorb : State → List ℕ → State
  absorb deriver [] = deriver
  absorb deriver (x ∷ xs) = absorb (prg.update deriver (to_bytes f x)) xs

-- What the steps share: the field, the generator, and the buffers that rejection sampling reads at
-- most for one element.
module _ (f : FieldType) {State Stream : Type 0} (prg : Prg State Stream) (fuel : ℕ) where
  -- `Prng::from_seed_stream(P::seed_stream(seed, info)).take(n).collect()`
  unfoldable pub expand {ℓ} : {E : Type ℓ} → List ℕ → List ℕ → ℕ → Outcome E (List ℕ)
  expand seed information n = do
    (xs, rest) ←
        take_elements f prg fuel n (from_seed_stream f prg (seed_stream prg seed information))
    ok xs

  -- The elements of a share: the leader's as they are, a helper's from the seed.
  unfoldable pub expand_share {ℓ} : {E : Type ℓ} → ℕ → ℕ → Share → Outcome E (List ℕ)
  expand_share aggregator_id n (leader share_data) = ok share_data
  expand_share aggregator_id n (helper seed) = expand seed (info aggregator_id) n
