-- ===== src/Prio3/Hints.antt =====
-- The seed of the joint randomness in src/vdaf/prio3.rs: the shares of it that are XORed, and what an
-- aggregator computes from its hint.
use libprio_rs.Common.{
  ℕ, zero, suc, ◌≡◌, refl, sym, ◌∙◌, List, [], ◌∷◌, arith, length, length-replicate, All, lt→ltb,
  inl, inr,
}
use libprio_rs.Common.Xor.{xor_each, length-xor_each, xor_each_swap, xor_each_cancel}
use libprio_rs.Outcome.{ok, >>=-eq-ok}
use libprio_rs.Field.{FieldType}
use libprio_rs.Field.Codec.{IsFieldType}
use libprio_rs.Field.Elementwise.{IsVector}
use libprio_rs.Prg.{Prg, xor, into_seed, uninitialized, seed_stream}
use libprio_rs.Prng.{take_elements, from_seed_stream}
use libprio_rs.Prng.Reading.{take_elements_lem, from_seed_stream-IsReady}
use libprio_rs.Vdaf.{VdafError}
use libprio_rs.Prio3.{vers_prio3, expand}
use libprio_rs.Prio3.Shard.{derive_hint, when_joint}
use libprio_rs.Prio3.Prepare.{joint_randomness}

-- `joint` with every share of the seed accumulated.
abbrev pub xor_all : List ℕ → List (List ℕ) → List ℕ
xor_all joint [] = joint
xor_all joint (seed ∷ seeds) = xor_all (xor_each joint seed) seeds

module _ (l : ℕ) where
  abbrev pub IsSeed : List ℕ → Type 0
  IsSeed seed = length seed ≡ l

  pub uninitialized-IsSeed : IsSeed (uninitialized l)
  unfolding uninitialized
  uninitialized-IsSeed = length-replicate l 0

  pub xor_each-IsSeed : (a b : List ℕ) → IsSeed a → IsSeed (xor_each a b)
  xor_each-IsSeed a b h = length-xor_each a b ∙ h

  pub xor_all-IsSeed :
      (joint : List ℕ) (seeds : List (List ℕ)) → IsSeed joint → IsSeed (xor_all joint seeds)
  xor_all-IsSeed joint [] h = h
  xor_all-IsSeed joint (seed ∷ seeds) h =
      xor_all-IsSeed (xor_each joint seed) seeds (xor_each-IsSeed joint seed h)

  -- The leader's share of the seed accumulated last or first.
  pub xor_all-xor_each :
      (joint seed : List ℕ) (seeds : List (List ℕ))
      → IsSeed joint
      → IsSeed seed
      → All IsSeed seeds
      → xor_all (xor_each joint seed) seeds ≡ xor_each (xor_all joint seeds) seed
  xor_all-xor_each joint seed [] hj hs h = refl
  xor_all-xor_each joint seed (s ∷ seeds) hj hs (h', h) =
      rw (xor_each_swap joint seed s (hj ∙ sym hs) (hj ∙ sym h'))
        (xor_all-xor_each (xor_each joint s) seed seeds (xor_each-IsSeed joint s hj) hs h)

module _ (f : FieldType) (ok_f : IsFieldType f) {State Stream : Type 0} (prg : Prg State Stream)
    (l fuel : ℕ) where
  pub derive_hint-IsSeed :
      (blind : List ℕ) (aggregator_id : ℕ) (xs : List ℕ)
      → IsSeed l (derive_hint f prg l blind aggregator_id xs)
  unfolding derive_hint into_seed
  derive_hint-IsSeed blind aggregator_id xs = prg.length-fill _ l

  -- What is expanded is a vector of reduced elements.
  pub expand-IsVector :
      (seed information : List ℕ) (n : ℕ) (xs : List ℕ)
      → expand f prg fuel {E = VdafError} seed information n ≡ ok xs
      → IsVector f n xs
  unfolding expand
  expand-IsVector seed information n xs e =
      let s = from_seed_stream f prg (seed_stream prg seed information) in
      let ((ys, rest), taken, last) =
        >>=-eq-ok (take_elements f prg {E = VdafError} fuel n s) _ e in
      let same : ys ≡ xs = cc last in
      elim (take_elements_lem f ok_f prg {E = VdafError} fuel n s
        (from_seed_stream-IsReady f ok_f prg _)) [
          | inl out ↦ cc
          | inr (zs, s', e', len, h, r, w) ↦ let same' : zs ≡ xs = cc in rw (← same') (len, h)
        ]

  pub expand_none :
      (seed information : List ℕ) → expand f prg fuel {E = VdafError} seed information 0 ≡ ok []
  unfolding expand take_elements
  expand_none seed information = refl

  -- The hint that the client sends and the aggregator's own share of the seed give the seed, and the
  -- elements that the client used.
  pub joint_randomness_lem :
      (joint_rand_len aggregator_id : ℕ) (blind input hint joint joint_rand : List ℕ)
      → derive_hint f prg l blind aggregator_id input ≡ hint
      → IsSeed l hint
      → IsSeed l joint
      → expand f prg fuel {E = VdafError} joint vers_prio3 joint_rand_len ≡ ok joint_rand
      → joint_randomness f prg l fuel {E = VdafError} joint_rand_len aggregator_id
          (when_joint joint_rand_len (record { seed_hint = xor_each hint joint; blind = blind }))
          input
        ≡ ok (when_joint joint_rand_len joint, when_joint joint_rand_len hint, joint_rand)
  unfolding joint_randomness xor
  joint_randomness_lem zero aggregator_id blind input hint joint joint_rand e hh hj taken =
      let none_taken = expand_none joint vers_prio3 in
      let same : [] ≡ joint_rand = cc in rw (← same) refl
  joint_randomness_lem (suc n) aggregator_id blind input hint joint joint_rand e hh hj taken =
      rw (lt→ltb 0 (suc n) (omega arith), e, xor_each_cancel hint joint (hh ∙ sym hj), taken) refl
