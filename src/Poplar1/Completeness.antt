-- ===== src/Poplar1/Completeness.antt =====
-- A report that `shard` of src/vdaf/poplar1.rs made, with both aggregators, from the client to the
-- output shares.
use libprio_rs.Common.{
  ℕ, zero, suc, ◌+◌, ◌-◌, ◌*◌, ◌≤◌, ◌<◌, ◌≡◌, refl, ap, ◌∙◌, List, [], ◌∷◌, arith, length,
  length-map, All, map, true, false,
}
use libprio_rs.Outcome.{Outcome, ok}
use libprio_rs.Fp.{residue}
use libprio_rs.Fp.Element.{Represents, zero-Represents}
use libprio_rs.Field.{FieldType, one}
use libprio_rs.Field.Codec.{IsFieldType}
use libprio_rs.Prg.{Prg, RandSource}
use libprio_rs.Vdaf.{VdafError}
use libprio_rs.Poplar1.{IdpfInput, Idpf, Poplar1InputShare, Poplar1PrepareStep, verify_param_new}
use libprio_rs.Poplar1.Agreement.{IsAgreed, ready_step-IsAgreed}
use libprio_rs.Poplar1.Blinds.{Draws-reduced, blinded-AreSums}
use libprio_rs.Poplar1.Correlation.{
  pushes, length-pushes, blind_lem, leader_next_lem, helper_next_lem,
}
use libprio_rs.Poplar1.Draws.{Draws}
use libprio_rs.Poplar1.Hits.{IsReport, point-hit}
use libprio_rs.Poplar1.Ordered.{IsOrdered, get_level_lem}
use libprio_rs.Poplar1.Points.{IsInput, value_at, point, IsValue, IsShared, IsIdpf}
use libprio_rs.Poplar1.Prefixes.{IsSketch-one}
use libprio_rs.Poplar1.Prepare.{prepare_init, leader_factor}
use libprio_rs.Poplar1.Shard.{shard, prng_of}
use libprio_rs.Poplar1.Sketch.{AreSums, AreSums-by}
use libprio_rs.Poplar1.Sums.{IsSum}
use libprio_rs.Poplar1.Tables.{at, at-All}
use libprio_rs.Poplar1.Reports.{leader_share, helper_share, init_lem, shard_lem, next-IsSum}

module _ (f : FieldType) (ok_f : IsFieldType f) {State Stream : Type 0} (prg : Prg State Stream)
    (fuel : ℕ) {Key : Type 0} (idpf : Idpf Key) where
  open f use {fp}

  sharing :
      (input : IdpfInput) (values : List (ℕ × ℕ)) (a b : Key) (level : ℕ) (nodes : List IdpfInput)
      → IsIdpf f idpf
      → IsInput input
      → input.level < length values
      → All (IsValue f) values
      → idpf.gen input values ≡ ok (a, b)
      → level ≤ input.level
      → All (λ node. (node.level ≡ level) × IsInput node) nodes
      → All (λ node. IsShared f idpf a b node (point input values node)) nodes
        × All (λ node. node.level ≡ level) nodes
  sharing input values a b level [] contract hi len hv made le h = (tt, tt)
  sharing input values a b level (node ∷ nodes) contract hi len hv made le ((e, hn), h) =
      let (shared, levels) = sharing input values a b level nodes contract hi len hv made le h in
      ((contract.shares input values a b hi len hv made node hn (omega arith), shared), (e, levels))

  values-IsValue :
      (unit : ℕ) (ks : List ℕ)
      → unit < fp.p
      → All (λ k. k < fp.p) ks
      → All (IsValue f) (map (λ k. (unit, k)) ks)
  values-IsValue unit [] hu h = tt
  values-IsValue unit (k ∷ ks) hu (hk, h) = ((hu, hk), values-IsValue unit ks hu h)

  value-unit :
      (unit : ℕ) (ks : List ℕ) (level : ℕ)
      → level < length ks
      → All (λ k. k < fp.p) ks
      → (value_at (map (λ k. (unit, k)) ks) level
          ≡ (unit, (value_at (map (λ k. (unit, k)) ks) level).1))
        × ((value_at (map (λ k. (unit, k)) ks) level).1 < fp.p)
  value-unit unit [] level h hk = absurd (omega arith)
  value-unit unit (k ∷ ks) zero h (hk, hks) = (refl, hk)
  value-unit unit (k ∷ ks) (suc level) h (hk, hks) = value-unit unit ks level (omega arith) hks

  zero-AreSums : AreSums f (0, 0, 0) (0, 0, 0) 0 0 0
  zero-AreSums =
      let none = zero-Represents fp ok_f.parameters in
      let share : IsSum fp 0 0 0 = record {
        left = 0;
        right = 0;
        left_Represents = none;
        right_Represents = none;
        sum = refl;
      } in
      record { sum0 = share; sum1 = share; sum2 = share }

  -- A report that `shard` makes goes through preparation. The conditions: a point function that meets
  -- its contract; an input of as many bits as its level; one reduced random element for each level, and
  -- a root table that starts with the element of 1; the three seeds, and generators that give three
  -- elements for each level, three, and two; keys that `gen` returns; prefixes of one length, not
  -- longer than the input, of as many bits as their level, in their order, one at least; and a
  -- generator for the seed of the verification randomness and the nonce that gives an element for
  -- each prefix. Then `shard` returns the shares of the two aggregators, `prepare_init` of each returns,
  -- both rounds go through, and both finish with their output share. The output shares are reduced
  -- vectors that add up to 1 at the prefix of the input, if it is in the set, and to 0 at the others.
  pub shard-IsAgreed {ℓ} :
      {E : Type ℓ} (l : ℕ) (rand_source : RandSource E)
      (random_elements : ℕ → Outcome VdafError (List ℕ)) (input : IdpfInput)
      (ks leader_start helper_start helper_next xs ys hides : List ℕ) (unit : ℕ) (a b : Key)
      (level input_length : ℕ) (node : IdpfInput) (nodes : List IdpfInput)
      (rand_init nonce rs : List ℕ)
      → IsIdpf f idpf
      → IsInput input
      → random_elements (input.level + 1) ≡ ok ks
      → length ks ≡ input.level + 1
      → All (λ k. k < fp.p) ks
      → one f ≡ ok unit
      → Represents fp unit 1
      → rand_source 0 l ≡ ok leader_start
      → rand_source 1 l ≡ ok helper_start
      → rand_source 2 l ≡ ok helper_next
      → length xs ≡ 3 * (input.level + 1)
      → length ys ≡ 3 * (input.level + 1)
      → length hides ≡ 2 * (input.level + 1)
      → Draws f prg fuel (prng_of f prg fuel leader_start []) xs
      → Draws f prg fuel (prng_of f prg fuel helper_start []) ys
      → Draws f prg fuel (prng_of f prg fuel helper_next []) hides
      → idpf.gen input (map (λ k. (unit, k)) ks) ≡ ok (a, b)
      → level ≤ input.level
      → All (λ x. (x.level ≡ level) × IsInput x) (node ∷ nodes)
      → IsOrdered (node ∷ nodes)
      → length rs ≡ length (node ∷ nodes)
      → Draws f prg fuel (prng_of f prg fuel rand_init nonce) rs
      → (first second : Poplar1InputShare Key) × (step_first : Poplar1PrepareStep)
        × (step_second : Poplar1PrepareStep) × (shard f prg fuel l rand_source random_elements idpf
              input
            ≡ ok (first ∷ second ∷ []))
        × (prepare_init f prg fuel idpf
              (verify_param_new rand_init true input_length)
              (node ∷ nodes)
              nonce
              first
            ≡ ok step_first)
        × (prepare_init f prg fuel idpf
              (verify_param_new rand_init false input_length)
              (node ∷ nodes)
              nonce
              second
            ≡ ok step_second)
        × IsAgreed f step_first step_second
        × IsReport f unit (node ∷ nodes) (input, step_first.output_share, step_second.output_share)
  unfolding verify_param_new leader_factor
  shard-IsAgreed l rand_source random_elements input ks leader_start helper_start helper_next xs ys
        hides unit a b level input_length node nodes rand_init nonce rs contract hi hk lk rk hu ru
        h₀ h₁ h₂ lx ly lh dx dy dh made le hn ho lr dr =
      let okp = ok_f.parameters in
      let q = fp.p - 1 in
      let next : fp.p ≡ suc q = omega (arith, okp.montgomery_form.p_pos) in
      let values : List (ℕ × ℕ) = map (λ k. (unit, k)) ks in
      let lv : length values ≡ input.level + 1 = length-map ks _ ∙ lk in
      let hv = values-IsValue unit ks ru.reduced rk in
      let (at_level, k_lt) = value-unit unit ks level (omega arith) rk in
      let k = (value_at values level).1 in
      let (shared, levels) =
        sharing input values a b level (node ∷ nodes) contract hi (omega arith) hv made le hn in
      let hx = Draws-reduced f ok_f prg fuel leader_start [] xs dx in
      let hy = Draws-reduced f ok_f prg fuel helper_start [] ys dy in
      let hh = Draws-reduced f ok_f prg fuel helper_next [] hides dh in
      let (t, sketch) =
        IsSketch-one f ok_f prg fuel idpf a b input values level unit k at_level ru k_lt
          (node ∷ nodes) rs _ (0, 0, 0) (0, 0, 0) 0 0 0 lr
          (Draws-reduced f ok_f prg fuel rand_init nonce rs dr) dr shared levels ho zero-AreSums in
      let sums =
        AreSums-by f ok_f prg fuel idpf a b _ _ _ _ _ t (t * t) (t * residue fp k) sketch.sums
          (omega arith) (omega arith) (omega arith) in
      let z = sketch.z_leader in
      let z' = sketch.z_helper in
      let n = 3 * level in
      let at_x : (i : ℕ) → i < n + 3 → at xs i < fp.p =
        λ i h. at-All (λ x. x < fp.p) xs i hx (omega arith) in
      let at_y : (i : ℕ) → i < n + 3 → at ys i < fp.p =
        λ i h. at-All (λ x. x < fp.p) ys i hy (omega arith) in
      let blinded =
        blinded-AreSums f ok_f prg fuel q next (z.0) (z.1) (z.2) (z'.0) (z'.1) (z'.2) t
          (residue fp k) _ _ _ _ _ _ sums (at_x n (omega arith)) (at_y n (omega arith))
          (at_x (n + 1) (omega arith)) (at_y (n + 1) (omega arith)) (at_x (n + 2) (omega arith))
          (at_y (n + 2) (omega arith)) in
      let (da, eb) =
        next-IsSum f ok_f prg fuel idpf q next level values xs ys hides hv (omega arith) hx hy hh
          (omega arith) (omega arith) (omega arith) in
      let small : level < 64 = omega arith in
      let level_found = get_level_lem level node nodes levels in
      (
        leader_share a leader_start (pushes f values xs ys hides),
        helper_share b helper_start helper_next,
        _,
        _,
        shard_lem f ok_f prg fuel idpf l rand_source random_elements input ks leader_start
            helper_start helper_next xs ys hides unit a b (hi.0) hk lk hu h₀ h₁ h₂ lx ly lh dx dy dh
            made,
        init_lem f ok_f prg fuel idpf _ (node ∷ nodes) nonce _ level z _ sketch.out_leader _ _ unit
            level_found sketch.leader_lem
            (blind_lem f prg fuel level leader_start xs _ _ _ small (omega arith) dx)
            (leader_next_lem f prg fuel level (pushes f values xs ys hides) small
              (omega (arith, length-pushes f values xs ys hides)))
            (rw hu refl),
        init_lem f ok_f prg fuel idpf _ (node ∷ nodes) nonce _ level z' _ sketch.out_helper _ _ 0
            level_found sketch.helper_lem
            (blind_lem f prg fuel level helper_start ys _ _ _ small (omega arith) dy)
            (helper_next_lem f prg fuel level helper_next hides small (omega arith) dh) refl,
        ready_step-IsAgreed f ok_f q next sketch.out_leader sketch.out_helper _ _ _ _ _ _ unit t
            (residue fp k) _ _ _ ru blinded da eb,
        (
          sketch.leader_IsVector,
          sketch.helper_IsVector,
          sketch.outputs
              ∙ point-hit unit level input values (node ∷ nodes) (ap (λ (v : ℕ × ℕ). v.0) at_level)
                  levels,
        ),
      )
