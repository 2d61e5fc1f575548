-- ===== src/Poplar1/Shard.antt =====
-- src/vdaf/poplar1.rs, `shard`: an input split into the two aggregators' shares.
use libprio_rs.Common.{ℕ, List, [], ◌∷◌, map}
use libprio_rs.Outcome.{Outcome, ok, ◌>>=◌}
use libprio_rs.Field.{FieldType, plus, minus, times}
use libprio_rs.Prg.{Prg, RandSource, seed_stream}
use libprio_rs.Prng.{Prng, from_seed_stream, get}
use libprio_rs.Prio3.{draw_seed}
use libprio_rs.Vdaf.{VdafError, leader, helper}
use libprio_rs.Poplar1.{IdpfInput, Idpf, Poplar1InputShare, element_one, usize_add}

module _ (f : FieldType) {State Stream : Type 0} (prg : Prg State Stream) (fuel : ℕ) where
  -- `Prng::from_seed_stream(P::seed_stream(seed, info))`
  abbrev pub prng_of : List ℕ → List ℕ → Prng Stream
  prng_of seed information = from_seed_stream f prg (seed_stream prg seed information)

  -- `leader_prng.get() + helper_prng.get()`
  unfoldable pub get_sum {ℓ} :
      {E : Type ℓ} → (first second : Prng Stream) → Outcome E (ℕ × Prng Stream × Prng Stream)
  get_sum first second = do
    (x, first') ← get f prg fuel first
    (y, second') ← get f prg fuel second
    ok (plus f x y, first', second')

  -- `for value in idpf_values.iter()`: what is pushed to `leader_sketch_next`.
  unfoldable pub correlate {ℓ} :
      {E : Type ℓ}
      → List (ℕ × ℕ)
      → (leader_start helper_start helper_next : Prng Stream) → Outcome E (List ℕ)
  correlate [] leader_start helper_start helper_next = ok []
  correlate ((v, k) ∷ values) leader_start helper_start helper_next = do
    (a, leader₁, helper₁) ← get_sum leader_start helper_start
    (b, leader₂, helper₂) ← get_sum leader₁ helper₁
    (c, leader₃, helper₃) ← get_sum leader₂ helper₂
    let d = minus f k (plus f a a)
    let e = plus f (minus f (plus f (times f a a) b) (times f a k)) c
    (x, next₁) ← get f prg fuel helper_next
    (y, next₂) ← get f prg fuel next₁
    rest ← correlate values leader₃ helper₃ next₂
    ok (minus f d x ∷ minus f e y ∷ rest)

  -- `random_elements n` is what `Prng::new()?.take(n)` gives, and the seeds are the first three
  -- calls of the source.
  unfoldable pub shard {ℓ} :
      {E : Type ℓ} {Key : Type 0}
      → ℕ
      → RandSource E
      → (ℕ → Outcome VdafError (List ℕ))
      → Idpf Key
      → IdpfInput
      → Outcome VdafError (List (Poplar1InputShare Key))
  shard l rand_source random_elements idpf input = do
    levels ← usize_add input.level 1
    ks ← random_elements levels
    unit ← element_one f
    let idpf_values = map (λ k. (unit, k)) ks
    leader_start_seed ← draw_seed l rand_source 0
    helper_start_seed ← draw_seed l rand_source 1
    helper_next_seed ← draw_seed l rand_source 2
    leader_next ←
        correlate idpf_values (prng_of leader_start_seed []) (prng_of helper_start_seed [])
          (prng_of helper_next_seed [])
    (leader_key, helper_key) ← idpf.gen input idpf_values
    ok (
        record {
          idpf = leader_key;
          sketch_start_seed = leader_start_seed;
          sketch_next = leader leader_next;
        }
        ∷ record {
          idpf = helper_key;
          sketch_start_seed = helper_start_seed;
          sketch_next = helper helper_next_seed;
        }
        ∷ [])
