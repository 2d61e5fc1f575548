-- ===== src/Poplar1/Reports.antt =====
-- What `shard` and `prepare_init` of src/vdaf/poplar1.rs return where their parts return, and the
-- aggregators' shares of A and B at a level.
use libprio_rs.Common.{
  ℕ, zero, suc, ◌+◌, ◌*◌, ◌<◌, ◌≡◌, refl, ◌∙◌, List, [], ◌∷◌, arith, length, length-map, All, map,
  lt→ltb,
}
use libprio_rs.Common.Words.{usize_word}
use libprio_rs.Outcome.{Outcome, ok}
use libprio_rs.Fp.{residue}
use libprio_rs.Field.{FieldType, one}
use libprio_rs.Field.Codec.{IsFieldType}
use libprio_rs.Field.Elementwise.{add-lt}
use libprio_rs.Prg.{Prg, RandSource, from_rand_source}
use libprio_rs.Vdaf.{VdafError, leader, helper}
use libprio_rs.Poplar1.{IdpfInput, Idpf, Poplar1InputShare, Poplar1VerifyParam}
use libprio_rs.Poplar1.Agreement.{ready_step}
use libprio_rs.Poplar1.Blinds.{a-IsSum, b-IsSum}
use libprio_rs.Poplar1.Correlation.{blind_sum, pushes, at-pushes, correlate_lem}
use libprio_rs.Poplar1.Draws.{Draws}
use libprio_rs.Poplar1.Points.{value_at, IsValue}
use libprio_rs.Poplar1.Prepare.{
  get_level, sketch_loop, blind, next_shares, prepare_init, leader_factor,
}
use libprio_rs.Poplar1.Shard.{shard, prng_of}
use libprio_rs.Poplar1.Sums.{IsSum}
use libprio_rs.Poplar1.Tables.{at, at-All}

-- The aggregators' input shares.
abbrev pub leader_share : {Key : Type 0} → Key → (seed next : List ℕ) → Poplar1InputShare Key
leader_share key seed next = record {
  idpf = key;
  sketch_start_seed = seed;
  sketch_next = leader next;
}

abbrev pub helper_share : {Key : Type 0} → Key → (seed next : List ℕ) → Poplar1InputShare Key
helper_share key seed next = record {
  idpf = key;
  sketch_start_seed = seed;
  sketch_next = helper next;
}

module _ (f : FieldType) (ok_f : IsFieldType f) {State Stream : Type 0} (prg : Prg State Stream)
    (fuel : ℕ) {Key : Type 0} (idpf : Idpf Key) where
  open f use {fp}

  -- What `prepare_init` returns where its parts return.
  pub init_lem :
      (param : Poplar1VerifyParam) (nodes : List IdpfInput) (nonce : List ℕ)
      (share : Poplar1InputShare Key) (level : ℕ) (z z' : ℕ × ℕ × ℕ) (out : List ℕ) (d e x : ℕ)
      → get_level nodes ≡ ok level
      → sketch_loop f prg fuel idpf share.idpf nodes
          (prng_of f prg fuel param.rand_init nonce)
          (0, 0, 0)
        ≡ ok (z, out)
      → blind f prg fuel {E = VdafError} level share.sketch_start_seed z ≡ ok z'
      → next_shares f prg fuel {E = VdafError} level share.sketch_next ≡ ok (d, e)
      → leader_factor f prg fuel {E = VdafError} param.is_leader ≡ ok x
      → prepare_init f prg fuel idpf param nodes nonce share ≡ ok (ready_step out z' d e x)
  unfolding prepare_init
  init_lem param nodes nonce share level z z' out d e x h₁ h₂ h₃ h₄ h₅ =
      rw (h₁, h₂, h₃, h₄, h₅) refl

  pub shard_lem {ℓ} :
      {E : Type ℓ} (l : ℕ) (rand_source : RandSource E)
      (random_elements : ℕ → Outcome VdafError (List ℕ)) (input : IdpfInput)
      (ks leader_start helper_start helper_next xs ys hides : List ℕ) (unit : ℕ) (a b : Key)
      → input.level < 64
      → random_elements (input.level + 1) ≡ ok ks
      → length ks ≡ input.level + 1
      → one f ≡ ok unit
      → rand_source 0 l ≡ ok leader_start
      → rand_source 1 l ≡ ok helper_start
      → rand_source 2 l ≡ ok helper_next
      → length xs ≡ 3 * (input.level + 1)
      → length ys ≡ 3 * (input.level + 1)
      → length hides ≡ 2 * (input.level + 1)
      → Draws f prg fuel (prng_of f prg fuel leader_start []) xs
      → Draws f prg fuel (prng_of f prg fuel helper_start []) ys
      → Draws f prg fuel (prng_of f prg fuel helper_next []) hides
      → idpf.gen input (map (λ k. (unit, k)) ks) ≡ ok (a, b)
      → shard f prg fuel l rand_source random_elements idpf input
        ≡ ok (
            leader_share a leader_start (pushes f (map (λ k. (unit, k)) ks) xs ys hides)
            ∷ helper_share b helper_start helper_next
            ∷ [])
  unfolding shard from_rand_source
  shard_lem l rand_source random_elements input ks leader_start helper_start helper_next xs ys hides
        unit a b small hk lk hu h₀ h₁ h₂ lx ly lh dx dy dh made =
      let values : List (ℕ × ℕ) = map (λ k. (unit, k)) ks in
      let len : length values ≡ input.level + 1 = length-map ks _ ∙ lk in
      let pushed =
        correlate_lem f prg fuel values _ _ _ xs ys hides (omega (arith, len)) (omega (arith, len))
          (omega (arith, len)) dx dy dh in
      rw (lt→ltb (input.level + 1) usize_word (omega arith), hk, hu, h₀, h₁, h₂, pushed, made) refl

  module _ (q : ℕ) (next : fp.p ≡ suc q) where
    -- The shares of A and B at a level, with the blinds there.
    pub next-IsSum :
        (level : ℕ) (values : List (ℕ × ℕ)) (xs ys hides : List ℕ)
        → All (IsValue f) values
        → level < length values
        → All (λ x. x < fp.p) xs
        → All (λ x. x < fp.p) ys
        → All (λ x. x < fp.p) hides
        → 3 * length values ≡ length xs
        → 3 * length values ≡ length ys
        → 2 * length values ≡ length hides
        → let k = (value_at values level).1 in
          let a = blind_sum f xs ys (3 * level) in
          let b = blind_sum f xs ys (3 * level + 1) in
          let c = blind_sum f xs ys (3 * level + 2) in
          IsSum fp
            (at (pushes f values xs ys hides) (2 * level))
            (at hides (2 * level))
            (residue fp k + q * (residue fp a + residue fp a))
          × IsSum fp (at (pushes f values xs ys hides) (2 * level + 1)) (at hides (2 * level + 1)) (
              residue fp a * residue fp a
              + residue fp b
              + q * (residue fp a * residue fp k)
              + residue fp c)
    next-IsSum level values xs ys hides hv lt hx hy hh lx ly lh =
        let k = (value_at values level).1 in
        let reduced : (i : ℕ) → i < length xs → blind_sum f xs ys i < fp.p = λ i hi.
          add-lt f ok_f.p_lt_word _ _ (at-All (λ x. x < fp.p) xs i hx hi)
            (at-All (λ x. x < fp.p) ys i hy (omega arith)) in
        let (first, second) = at-pushes f values xs ys hides level lt in
        let hk = value-lt values level hv lt in
        let ha = reduced (3 * level) (omega arith) in
        let hb = reduced (3 * level + 1) (omega arith) in
        let hc = reduced (3 * level + 2) (omega arith) in
        let h0 = at-All (λ x. x < fp.p) hides (2 * level) hh (omega arith) in
        let h1 = at-All (λ x. x < fp.p) hides (2 * level + 1) hh (omega arith) in
        (
          rw first (a-IsSum f ok_f prg fuel q next k _ _ hk ha h0),
          rw second (b-IsSum f ok_f prg fuel q next k _ _ _ _ hk ha hb hc h1),
        )
      where
        value-lt :
            (vs : List (ℕ × ℕ)) (i : ℕ)
            → All (IsValue f) vs
            → i < length vs
            → (value_at vs i).1 < fp.p
        value-lt [] i h lt' = absurd (omega arith)
        value-lt (v ∷ vs) zero (h, hs) lt' = h.1
        value-lt (v ∷ vs) (suc i) (h, hs) lt' = value-lt vs i hs (omega arith)
