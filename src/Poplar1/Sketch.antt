-- ===== src/Poplar1/Sketch.antt =====
-- The sketch of src/vdaf/poplar1.rs over the prefixes: the loop of `prepare_init` of both aggregators on
-- the keys of one input.
use libprio_rs.Common.{suc, length, ℕ, ◌+◌, ◌*◌, ◌<◌, ◌≡◌, refl, sym, ap, List, [], ◌∷◌, arith, map}
use mathlib.Core.Path.{subst, ap₂}
use libprio_rs.Outcome.{ok}
use libprio_rs.Fp.Element.{Represents, zero-Represents, residue-congruent}
use libprio_rs.Fp.{residue}
use libprio_rs.Field.{FieldType, plus, times, add_each}
use libprio_rs.Field.Codec.{IsFieldType}
use libprio_rs.Field.Elementwise.{IsVector}
use libprio_rs.Prg.{Prg}
use libprio_rs.Prng.{Prng, get}
use libprio_rs.Vdaf.{VdafError}
use libprio_rs.Poplar1.{IdpfInput, Idpf}
use libprio_rs.Poplar1.Points.{IsShared}
use libprio_rs.Poplar1.Prepare.{sketch_loop}
use libprio_rs.Poplar1.Sums.{IsSum, reduced-IsSum, add-IsSum, mul-IsSum}

-- Three sums that two aggregators share.
pub record AreSums (f : FieldType) (x y : ℕ × ℕ × ℕ) (n0 n1 n2 : ℕ) : Type 0 where
  pub sum0 : IsSum f.fp (x.0) (y.0) n0
  pub sum1 : IsSum f.fp (x.1) (y.1) n1
  pub sum2 : IsSum f.fp (x.2) (y.2) n2

module _ (f : FieldType) (ok_f : IsFieldType f) {State Stream : Type 0} (prg : Prg State Stream)
    (fuel : ℕ) {Key : Type 0} (idpf : Idpf Key) (a b : Key) where
  open f use {fp}

  -- What the two loops return: sums shared, and output shares that add up to the points' values.
  pub record IsSketch (value : IdpfInput → ℕ × ℕ) (nodes : List IdpfInput) (s : Prng Stream)
      (x y : ℕ × ℕ × ℕ) (n0 n1 n2 : ℕ) : Type 0 where
    pub z_leader : ℕ × ℕ × ℕ
    pub z_helper : ℕ × ℕ × ℕ
    pub out_leader : List ℕ
    pub out_helper : List ℕ
    pub leader_lem : sketch_loop f prg fuel idpf a nodes s x ≡ ok (z_leader, out_leader)
    pub helper_lem : sketch_loop f prg fuel idpf b nodes s y ≡ ok (z_helper, out_helper)
    pub sums : AreSums f z_leader z_helper n0 n1 n2
    pub leader_IsVector : IsVector f (length nodes) out_leader
    pub helper_IsVector : IsVector f (length nodes) out_helper
    pub outputs : add_each f out_leader out_helper ≡ map (λ node. (value node).0) nodes

  -- The accumulators after one more prefix.
  abbrev after : (r : ℕ) → ℕ × ℕ → ℕ × ℕ × ℕ → ℕ × ℕ × ℕ
  after r v z = (
    plus f z.0 (times f r v.0),
    plus f z.1 (times f r (times f r v.0)),
    plus f z.2 (times f r v.1),
  )

  pub IsSketch-cons :
      (value : IdpfInput → ℕ × ℕ) (node : IdpfInput) (nodes : List IdpfInput) (s s' : Prng Stream)
      (r : ℕ) (x y : ℕ × ℕ × ℕ) (n0 n1 n2 : ℕ) (shared : IsShared f idpf a b node (value node))
      → get f prg {E = VdafError} fuel s ≡ ok (r, s')
      → IsSketch value nodes s' (after r shared.first x) (after r shared.second y) n0 n1 n2
      → IsSketch value (node ∷ nodes) s x y n0 n1 n2
  unfolding sketch_loop add_each
  IsSketch-cons value node nodes s s' r x y n0 n1 n2 shared got rest = record {
    z_leader = rest.z_leader;
    z_helper = rest.z_helper;
    out_leader = shared.first.0 ∷ rest.out_leader;
    out_helper = shared.second.0 ∷ rest.out_helper;
    leader_lem = rw (shared.first_eval, got, rest.leader_lem) refl;
    helper_lem = rw (shared.second_eval, got, rest.helper_lem) refl;
    sums = rest.sums;
    leader_IsVector =
        (ap suc (rest.leader_IsVector.0), (shared.first_IsValue.0, rest.leader_IsVector.1));
    helper_IsVector =
        (ap suc (rest.helper_IsVector.0), (shared.second_IsValue.0, rest.helper_IsVector.1));
    outputs = ap₂ (λ (t : ℕ) (ts : List ℕ). t ∷ ts) shared.sum0 rest.outputs;
  }

  -- The sums after one more prefix, whose value stands for two integers.
  pub after-AreSums :
      (r c : ℕ) (node : IdpfInput) (w : ℕ × ℕ) (v k : ℕ) (x y : ℕ × ℕ × ℕ) (n0 n1 n2 : ℕ)
      (shared : IsShared f idpf a b node w)
      → Represents fp r c
      → Represents fp (w.0) v
      → Represents fp (w.1) k
      → AreSums f x y n0 n1 n2
      → AreSums f
          (after r shared.first x)
          (after r shared.second y)
          (n0 + c * v)
          (n1 + c * (c * v))
          (n2 + c * k)
  after-AreSums r c node w v k x y n0 n1 n2 shared hr hv hk sums =
      let okp = ok_f.parameters in
      let fst = shared.first_IsValue in
      let snd = shared.second_IsValue in
      let sv = reduced-IsSum fp okp _ _ (w.0) v (fst.0) (snd.0) shared.sum0 hv in
      let sk = reduced-IsSum fp okp _ _ (w.1) k (fst.1) (snd.1) shared.sum1 hk in
      let rv = mul-IsSum fp okp r c _ _ v hr sv in
      record {
        sum0 = add-IsSum fp okp _ _ n0 _ _ (c * v) sums.sum0 rv;
        sum1 =
            add-IsSum fp okp _ _ n1 _ _ (c * (c * v)) sums.sum1 (mul-IsSum fp okp r c _ _ _ hr rv);
        sum2 = add-IsSum fp okp _ _ n2 _ _ (c * k) sums.sum2 (mul-IsSum fp okp r c _ _ k hr sk);
      }

  pub AreSums-by :
      (x y : ℕ × ℕ × ℕ) (n0 n1 n2 m0 m1 m2 : ℕ)
      → AreSums f x y n0 n1 n2
      → n0 ≡ m0
      → n1 ≡ m1
      → n2 ≡ m2
      → AreSums f x y m0 m1 m2
  AreSums-by x y n0 n1 n2 m0 m1 m2 sums e0 e1 e2 = record {
    sum0 = subst (IsSum fp (x.0) (y.0)) e0 sums.sum0;
    sum1 = subst (IsSum fp (x.1) (y.1)) e1 sums.sum1;
    sum2 = subst (IsSum fp (x.2) (y.2)) e2 sums.sum2;
  }

  pub IsSketch-nil :
      (value : IdpfInput → ℕ × ℕ) (s : Prng Stream) (x y : ℕ × ℕ × ℕ) (n0 n1 n2 : ℕ)
      → AreSums f x y n0 n1 n2
      → IsSketch value [] s x y n0 n1 n2
  unfolding sketch_loop add_each
  IsSketch-nil value s x y n0 n1 n2 sums = record {
    z_leader = x;
    z_helper = y;
    out_leader = [];
    out_helper = [];
    leader_lem = refl;
    helper_lem = refl;
    sums = sums;
    leader_IsVector = (refl, tt);
    helper_IsVector = (refl, tt);
    outputs = refl;
  }

  -- A prefix whose value is zeros changes no sum.
  pub after_zeros :
      (r : ℕ) (node : IdpfInput) (w : ℕ × ℕ) (x y : ℕ × ℕ × ℕ) (n0 n1 n2 : ℕ)
      (shared : IsShared f idpf a b node w)
      → r < fp.p
      → w ≡ (0, 0)
      → AreSums f x y n0 n1 n2
      → AreSums f (after r shared.first x) (after r shared.second y) n0 n1 n2
  after_zeros r node w x y n0 n1 n2 shared hr e sums =
      let okp = ok_f.parameters in
      let c = residue fp r in
      let none = zero-Represents fp okp in
      let w0 : w.0 ≡ 0 = ap (λ (t : ℕ × ℕ). t.0) e in
      let w1 : w.1 ≡ 0 = ap (λ (t : ℕ × ℕ). t.1) e in
      AreSums-by _ _ (n0 + c * 0) (n1 + c * (c * 0)) (n2 + c * 0) n0 n1 n2
        (after-AreSums r c node w 0 0 x y n0 n1 n2 shared (residue-congruent fp okp r hr)
          (subst (λ (t : ℕ). Represents fp t 0) (sym w0) none)
          (subst (λ (t : ℕ). Represents fp t 0) (sym w1) none) sums)
        (omega arith) (omega arith) (omega arith)
