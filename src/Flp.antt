-- ===== src/Flp.antt =====
-- src/flp.rs: what a proof system gives to the VDAF, as an interface: the trait `Type`, over which
-- `Prio3` is generic, is a record of the operations that it calls.
pub mod Types
pub mod SumRoundTrip
use libprio_rs.Common.{ℕ, ◌≡◌, Bool, true, List, [], ◌∷◌, length, All, replicate}
use libprio_rs.Outcome.{Outcome, ok}
use libprio_rs.Field.{FieldType, add_each}
use libprio_rs.Field.Elementwise.{IsVector}
use libprio_rs.Field.Sums.{add_all}

-- The messages that the errors hold are left out.
pub data FlpError : Type 0 where
  prove_error query_error decide_error gadget_error valid_error encode_error truncate_error :
      FlpError
  fft_error field_error : FlpError

pub record FlpType (Measurement : Type 0) : Type 0 where
  pub encode : Measurement → Outcome FlpError (List ℕ)
  pub truncate : List ℕ → Outcome FlpError (List ℕ)
  pub prove : (input prove_rand joint_rand : List ℕ) → Outcome FlpError (List ℕ)
  pub query :
      (input proof query_rand joint_rand : List ℕ) (num_shares : ℕ) → Outcome FlpError (List ℕ)
  pub decide : List ℕ → Outcome FlpError Bool
  pub input_len : ℕ
  pub proof_len : ℕ
  pub verifier_len : ℕ
  pub output_len : ℕ
  pub joint_rand_len : ℕ
  pub prove_rand_len : ℕ
  pub query_rand_len : ℕ

-- The shares of all the verifiers, from the queries with the shares of inputs and proofs.
abbrev pub AllQueried :
    {Measurement : Type 0} (typ : FlpType Measurement) (query_rand joint_rand : List ℕ)
    (num_shares : ℕ) (inputs proofs verifiers : List (List ℕ))
    → Type 0
AllQueried typ query_rand joint_rand num_shares (xs ∷ inputs) (zs ∷ proofs) (vs ∷ verifiers) =
    (typ.query xs zs query_rand joint_rand num_shares ≡ ok vs)
    × AllQueried typ query_rand joint_rand num_shares inputs proofs verifiers
AllQueried typ query_rand joint_rand num_shares [] [] [] = Unit {0}
AllQueried typ query_rand joint_rand num_shares _ _ _ = ⊥
