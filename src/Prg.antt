-- ===== src/Prg.antt =====
-- src/vdaf/prg.rs: seeds, and the generators that stretch them.
pub mod Equality
use libprio_rs.Common.{ℕ, zero, suc, ◌≡◌, ◌<◌, Bool, List, [], ◌∷◌, ◌==◌, length, replicate, All}
use libprio_rs.Common.Xor.{xor_each}
use libprio_rs.Outcome.{Outcome, ok, err, ◌>>=◌}
use Prim.Native.Nat.{bit_or, bit_xor}

-- The traits `Prg` and `SeedStream`, which AES-128 and CMAC of other packages implement: `fill s n`
-- gives the next n bytes of the stream and what follows them.
pub record Prg (State Stream : Type 0) : Type 0 where
  pub init : List ℕ → State
  pub update : State → List ℕ → State
  pub into_seed_stream : State → Stream
  pub fill : Stream → ℕ → List ℕ × Stream
  pub length-fill : (s : Stream) (n : ℕ) → length ((fill s n).0) ≡ n
  pub fill-bytes : (s : Stream) (n : ℕ) → All (λ b. b < 256) ((fill s n).0)

-- `RandSource`: what the k-th call returns for a buffer of so many bytes.
abbrev pub RandSource {ℓ} : Type ℓ → Type ℓ
RandSource E = ℕ → ℕ → Outcome E (List ℕ)

-- `Seed::<L>::from_rand_source`, the k-th call of the source.
unfoldable pub from_rand_source {ℓ} : {E : Type ℓ} → ℕ → RandSource E → ℕ → Outcome E (List ℕ)
from_rand_source l rand_source k = rand_source k l

unfoldable pub uninitialized : ℕ → List ℕ
uninitialized l = replicate l 0

unfoldable pub xor_accumulate : List ℕ → List ℕ → List ℕ
xor_accumulate self other = xor_each self other

unfoldable pub xor : List ℕ → List ℕ → List ℕ
xor left right = xor_each left right

-- `for (x, y) in .. { r |= x ^ y; }`
unfoldable pub differences : ℕ → List ℕ → List ℕ → ℕ
differences r (x ∷ xs) (y ∷ ys) = differences (bit_or r (bit_xor x y)) xs ys
differences r [] ys = r
differences r (x ∷ xs) [] = r

-- `PartialEq for Seed<L>`
unfoldable pub seed_eq : List ℕ → List ℕ → Bool
seed_eq self other = differences 0 self other == 0

module _ {State Stream : Type 0} (prg : Prg State Stream) where
  -- `into_seed`, for seeds of `l` bytes.
  unfoldable pub into_seed : ℕ → State → List ℕ
  into_seed l s = (prg.fill (prg.into_seed_stream s) l).0

  unfoldable pub seed_stream : List ℕ → List ℕ → Stream
  seed_stream seed info = prg.into_seed_stream (prg.update (prg.init seed) info)
