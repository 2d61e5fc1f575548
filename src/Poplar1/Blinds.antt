-- ===== src/Poplar1/Blinds.antt =====
-- The blinds of src/vdaf/poplar1.rs as integers: the aggregators' shares of A and B, and of the sketch.
use libprio_rs.Common.{ℕ, suc, ◌+◌, ◌*◌, ◌<◌, ◌≡◌, refl, List, length, All, inl, inr}
use libprio_rs.Fp.{residue}
use libprio_rs.Fp.Element.{residue-congruent, mul-Represents, add-Represents}
use libprio_rs.Field.{FieldType, plus, minus}
use libprio_rs.Field.Codec.{IsFieldType}
use libprio_rs.Field.Elementwise.{add-lt}
use libprio_rs.Prg.{Prg}
use libprio_rs.Prng.Reading.{take_elements_lem, from_seed_stream-IsReady}
use libprio_rs.Vdaf.{VdafError}
use libprio_rs.Poplar1.Correlation.{a_of, b_of}
use libprio_rs.Poplar1.Draws.{Draws}
use libprio_rs.Poplar1.Shard.{prng_of}
use libprio_rs.Poplar1.Sketch.{AreSums}
use libprio_rs.Poplar1.Sums.{IsSum, reduced-IsSum, add-IsSum, hidden-IsSum, sub_times}

module _ (f : FieldType) (ok_f : IsFieldType f) {State Stream : Type 0} (prg : Prg State Stream)
    (fuel : ℕ) where
  open f use {fp}
  open fp use {p}

  -- What a generator gives is reduced.
  pub Draws-reduced :
      (seed information xs : List ℕ)
      → Draws f prg fuel (prng_of f prg fuel seed information) xs
      → All (λ x. x < p) xs
  Draws-reduced seed information xs (rest, e) =
      elim (take_elements_lem f ok_f prg {E = VdafError} fuel (length xs)
        (prng_of f prg fuel seed information) (from_seed_stream-IsReady f ok_f prg _)) [
          | inl out ↦ cc
          | inr (ys, s', e', len, h, r, w) ↦ let same : ys ≡ xs = cc in rw (← same) h
        ]

  module _ (q : ℕ) (next : p ≡ suc q) where
    -- The shares of A and B of a level, the leader's hidden by the helper's.
    pub a-IsSum :
        (k a h : ℕ)
        → k < p
        → a < p
        → h < p
        → IsSum fp (minus f (a_of f k a) h) h (residue fp k + q * (residue fp a + residue fp a))
    a-IsSum k a h hk ha hh =
        let okp = ok_f.parameters in
        let rk = residue-congruent fp okp k hk in
        let ra = residue-congruent fp okp a ha in
        hidden-IsSum fp okp q next _ h _ hh
          (sub_times fp okp q next k _ _ _ rk (add-Represents fp okp a a _ _ ra ra))

    pub b-IsSum :
        (k a b c h : ℕ)
        → k < p
        → a < p
        → b < p
        → c < p
        → h < p
        → IsSum fp (minus f (b_of f k a b c) h) h (
            residue fp a * residue fp a
            + residue fp b
            + q * (residue fp a * residue fp k)
            + residue fp c)
    b-IsSum k a b c h hk ha hb hc hh =
        let okp = ok_f.parameters in
        let rk = residue-congruent fp okp k hk in
        let ra = residue-congruent fp okp a ha in
        let rb = residue-congruent fp okp b hb in
        let rc = residue-congruent fp okp c hc in
        let square = add-Represents fp okp _ b _ _ (mul-Represents fp okp a a _ _ ra ra) rb in
        let less = sub_times fp okp q next _ _ _ _ square (mul-Represents fp okp a k _ _ ra rk) in
        hidden-IsSum fp okp q next _ h _ hh (add-Represents fp okp _ c _ _ less rc)

    -- The blinds added to the sketch.
    pub blinded-AreSums :
        (x0 x1 x2 y0 y1 y2 s k a a' b b' c c' : ℕ)
        → AreSums f (x0, x1, x2) (y0, y1, y2) s (s * s) (s * k)
        → a < p
        → a' < p
        → b < p
        → b' < p
        → c < p
        → c' < p
        → AreSums f
            (plus f x0 a, plus f x1 b, plus f x2 c)
            (plus f y0 a', plus f y1 b', plus f y2 c')
            (s + residue fp (plus f a a'))
            (s * s + residue fp (plus f b b'))
            (s * k + residue fp (plus f c c'))
    blinded-AreSums x0 x1 x2 y0 y1 y2 s k a a' b b' c c' sums ha ha' hb hb' hc hc' =
        let okp = ok_f.parameters in
        let share : (u v : ℕ) → u < p → v < p → IsSum fp u v (residue fp (plus f u v)) =
          λ u v hu hv.
            reduced-IsSum fp okp u v (plus f u v) _ hu hv refl
              (residue-congruent fp okp (plus f u v) (add-lt f ok_f.p_lt_word u v hu hv)) in
        record {
          sum0 = add-IsSum fp okp x0 y0 _ a a' _ sums.sum0 (share a a' ha ha');
          sum1 = add-IsSum fp okp x1 y1 _ b b' _ sums.sum1 (share b b' hb hb');
          sum2 = add-IsSum fp okp x2 y2 _ c c' _ sums.sum2 (share c c' hc hc');
        }
