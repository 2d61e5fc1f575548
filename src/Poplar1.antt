-- ===== src/Poplar1.antt =====
-- src/vdaf/poplar1.rs: the data of Poplar1, the interface of its incremental distributed point
-- function, and its set-up. A `Seed<L>` is a list of `l` bytes.
pub mod Input
pub mod InputBounds
pub mod Toy
pub mod Shard
pub mod Prepare
pub mod Collect
pub mod Wire
pub mod Points
pub mod Tables
pub mod WholeTables
pub mod ToyPoints
pub mod ToyContract
pub mod Sums
pub mod Draws
pub mod Correlation
pub mod Sketch
pub mod Ordered
pub mod Prefixes
pub mod Agreement
pub mod Blinds
pub mod Reports
pub mod Hits
pub mod Completeness
pub mod Counts
pub mod Transitions
pub mod SetCodec
pub mod KeyCodec
pub mod ReportCodec
use libprio_rs.Common.{
  ℕ, zero, suc, ◌+◌, ◌*◌, ◌%◌, ◌^◌, Bool, true, false, List, [], ◌∷◌, ltb, if◌then◌else◌,
}
use libprio_rs.Common.Words.{usize_word}
use libprio_rs.Outcome.{Outcome, ok, panicked, ◌>>=◌, map_err}
use libprio_rs.Codec.{Decoder, Encoder}
use libprio_rs.Field.{FieldType, one}
use libprio_rs.Prg.{RandSource}
use libprio_rs.Prio3.{draw_seed}
use libprio_rs.Vdaf.{VdafError, Share}

-- `x + y`, `x * y` and `x << k` of a `usize`, which panic where they overflow: a shift does where k
-- is 64 at least.
abbrev pub usize_add {ℓ} : {E : Type ℓ} → ℕ → ℕ → Outcome E ℕ
usize_add x y = if ltb (x + y) usize_word then ok (x + y) else panicked

abbrev pub usize_mul {ℓ} : {E : Type ℓ} → ℕ → ℕ → Outcome E ℕ
usize_mul x y = if ltb (x * y) usize_word then ok (x * y) else panicked

abbrev pub usize_shl {ℓ} : {E : Type ℓ} → ℕ → ℕ → Outcome E ℕ
usize_shl x k = if ltb k 64 then ok (x * 2 ^ k % usize_word) else panicked

-- `F::one()`
abbrev pub element_one {ℓ} : {E : Type ℓ} → FieldType → Outcome E ℕ
element_one f = map_err (λ e. absurd e) (one f)

pub record IdpfInput : Type 0 where
  pub index : ℕ
  pub level : ℕ

-- The trait `Idpf<2, 2>` with its codec. A value is a pair of elements, and the values of `gen` are
-- what its iterator gives.
pub record Idpf (Key : Type 0) : Type 0 where
  pub gen : IdpfInput → List (ℕ × ℕ) → Outcome VdafError (Key × Key)
  pub eval : Key → IdpfInput → Outcome VdafError (ℕ × ℕ)
  pub encode_key : Encoder Key
  pub decode_key : Decoder Key

pub record Poplar1InputShare (Key : Type 0) : Type 0 where
  pub idpf : Key
  pub sketch_start_seed : List ℕ
  pub sketch_next : Share

pub record Poplar1 : Type 0 where
  pub input_length : ℕ

pub record Poplar1VerifyParam : Type 0 where
  pub rand_init : List ℕ
  pub input_length : ℕ
  pub is_leader : Bool

pub data SketchState : Type 0 where
  ready round_one round_two : SketchState

-- A `Poplar1PrepareMessage` is a list of elements, and `z` an array of three.
pub record Poplar1PrepareStep : Type 0 where
  pub sketch : SketchState
  pub output_share : List ℕ
  pub z : ℕ × ℕ × ℕ
  pub d : ℕ
  pub e : ℕ
  pub x : ℕ

-- `Poplar1::new`
unfoldable pub poplar1_new : ℕ → Poplar1
poplar1_new bits = record { input_length = bits }

-- `Poplar1VerifyParam::new`
unfoldable pub verify_param_new : List ℕ → Bool → ℕ → Poplar1VerifyParam
verify_param_new seed is_leader input_length = record {
  rand_init = seed;
  input_length = input_length;
  is_leader = is_leader;
}

unfoldable pub poplar1_num_aggregators : ℕ
poplar1_num_aggregators = 2

-- `Seed::generate` is the first call of the source.
unfoldable pub setup {ℓ} :
    {E : Type ℓ} → ℕ → RandSource E → Poplar1 → Outcome VdafError (List Poplar1VerifyParam)
setup l rand_source self = do
  verify_rand_init ← draw_seed l rand_source 0
  ok (
      verify_param_new verify_rand_init true self.input_length
      ∷ verify_param_new verify_rand_init false self.input_length
      ∷ [])
