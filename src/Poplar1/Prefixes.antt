-- ===== src/Poplar1/Prefixes.antt =====
-- The sketch of src/vdaf/poplar1.rs over a set of prefixes of one length, of which an input has one at
-- most.
use libprio_rs.Common.{
  ℕ, ◌+◌, ◌*◌, ◌%◌, ◌^◌, ◌<◌, ◌≡◌, refl, sym, ap, ◌∙◌, List, [], ◌∷◌, arith, length, All, ◌==◌,
  ==_iff, Bool-cases, inl, inr,
}
use mathlib.Core.Path.{subst}
use libprio_rs.Fp.{residue}
use libprio_rs.Fp.Element.{Represents, residue-congruent}
use libprio_rs.Field.{FieldType}
use libprio_rs.Field.Codec.{IsFieldType}
use libprio_rs.Prg.{Prg}
use libprio_rs.Prng.{Prng}
use libprio_rs.Poplar1.{IdpfInput, Idpf}
use libprio_rs.Poplar1.Draws.{Draws, Draws-get}
use libprio_rs.Poplar1.Ordered.{IsOrdered, cmp_same_level}
use libprio_rs.Poplar1.Points.{value_at, point, IsShared}
use libprio_rs.Poplar1.Sketch.{
  AreSums, IsSketch, IsSketch-cons, IsSketch-nil, after-AreSums, after_zeros, AreSums-by,
}

module _ (f : FieldType) (ok_f : IsFieldType f) {State Stream : Type 0} (prg : Prg State Stream)
    (fuel : ℕ) {Key : Type 0} (idpf : Idpf Key) (a b : Key) (input : IdpfInput)
    (values : List (ℕ × ℕ)) where
  open f use {fp}

  abbrev IsSharedAt : IdpfInput → Type 0
  IsSharedAt node = IsShared f idpf a b node (point input values node)

  -- Prefixes that the input does not have.
  IsSketch-none :
      (nodes : List IdpfInput) (rs : List ℕ) (s : Prng Stream) (x y : ℕ × ℕ × ℕ) (n0 n1 n2 : ℕ)
      → length rs ≡ length nodes
      → All (λ r. r < fp.p) rs
      → Draws f prg fuel s rs
      → All IsSharedAt nodes
      → All (λ node. point input values node ≡ (0, 0)) nodes
      → AreSums f x y n0 n1 n2
      → IsSketch f ok_f prg fuel idpf a b (point input values) nodes s x y n0 n1 n2
  IsSketch-none [] rs s x y n0 n1 n2 len hr d shared none sums =
      IsSketch-nil f ok_f prg fuel idpf a b (point input values) s x y n0 n1 n2 sums
  IsSketch-none (node ∷ nodes) [] s x y n0 n1 n2 len hr d shared none sums = absurd (omega arith)
  IsSketch-none (node ∷ nodes) (r ∷ rs) s x y n0 n1 n2 len (h, hr) d (sh, shared) (e, none) sums =
      let (s', got, d') = Draws-get f prg fuel s r rs d in
      IsSketch-cons f ok_f prg fuel idpf a b (point input values) node nodes s s' r x y n0 n1 n2 sh
        got
        (IsSketch-none nodes rs s' _ _ n0 n1 n2 (omega arith) hr d' shared none
          (after_zeros f ok_f prg fuel idpf a b r node _ x y n0 n1 n2 sh h e sums))

  -- Below a prefix that the input has, every other of its length is one that it does not have.
  others :
      (level : ℕ) (node : IdpfInput) (nodes : List IdpfInput)
      → node.level ≡ level
      → node.index ≡ input.index % 2 ^ node.level
      → All (λ y. y.level ≡ level) nodes
      → IsOrdered (node ∷ nodes)
      → All (λ y. point input values y ≡ (0, 0)) nodes
  others level node [] el ei hl ho = tt
  others level node (y ∷ nodes) el ei (hy, hl) ((lt, below), (above, ho)) =
      let less = cmp_same_level node y (el ∙ sym hy) lt in
      let powers : 2 ^ node.level ≡ 2 ^ y.level = ap (λ (t : ℕ). 2 ^ t) (el ∙ sym hy) in
      let target : input.index % 2 ^ node.level ≡ input.index % 2 ^ y.level =
        ap (λ (t : ℕ). input.index % t) powers in
      (
        elim (Bool-cases (y.index == input.index % 2 ^ y.level)) [
          | inl same ↦
              absurd (
                omega
                  (arith, less, ei, target, (==_iff y.index (input.index % 2 ^ y.level)).0 same))
          | inr other ↦ rw other refl
        ],
        others level node nodes el ei hl (below, ho),
      )

  -- Prefixes of one length in their order: the sums are those of one random element s, or of 0.
  pub IsSketch-one :
      (level unit k : ℕ)
      → value_at values level ≡ (unit, k)
      → Represents fp unit 1
      → k < fp.p
      → (nodes : List IdpfInput) (rs : List ℕ) (s : Prng Stream) (x y : ℕ × ℕ × ℕ) (n0 n1 n2 : ℕ)
      → length rs ≡ length nodes
      → All (λ r. r < fp.p) rs
      → Draws f prg fuel s rs
      → All IsSharedAt nodes
      → All (λ node. node.level ≡ level) nodes
      → IsOrdered nodes
      → AreSums f x y n0 n1 n2
      → (t : ℕ) × IsSketch f ok_f prg fuel idpf a b
          (point input values)
          nodes
          s
          x
          y
          (n0 + t)
          (n1 + t * t)
          (n2 + t * residue fp k)
  IsSketch-one level unit k at_level hu hk [] rs s x y n0 n1 n2 len hr d shared hl ho sums = (
    0,
    IsSketch-nil f ok_f prg fuel idpf a b (point input values) s x y (n0 + 0) (n1 + 0 * 0)
        (n2 + 0 * residue fp k)
        (AreSums-by f ok_f prg fuel idpf a b x y n0 n1 n2 _ _ _ sums (omega arith) (omega arith)
          (omega arith)),
  )
  IsSketch-one level unit k at_level hu hk (node ∷ nodes) [] s x y n0 n1 n2 len hr d shared hl ho
        sums =
      absurd (omega arith)
  IsSketch-one level unit k at_level hu hk (node ∷ nodes) (r ∷ rs) s x y n0 n1 n2 len (h, hr) d
        (sh, shared) (el, hl) (above, ho) sums =
      let okp = ok_f.parameters in
      let (s', got, d') = Draws-get f prg fuel s r rs d in
      elim (Bool-cases (node.index == input.index % 2 ^ node.level)) [
        | inl same ↦
            let c = residue fp r in
            let w : point input values node ≡ (unit, k) = rw (same, el) at_level in
            let w0 : (point input values node).0 ≡ unit = ap (λ (t : ℕ × ℕ). t.0) w in
            let w1 : (point input values node).1 ≡ k = ap (λ (t : ℕ × ℕ). t.1) w in
            let rk = residue-congruent fp okp k hk in
            let next =
              after-AreSums f ok_f prg fuel idpf a b r c node _ 1 (residue fp k) x y n0 n1 n2 sh
                (residue-congruent fp okp r h) (subst (λ (t : ℕ). Represents fp t 1) (sym w0) hu)
                (subst (λ (t : ℕ). Represents fp t (residue fp k)) (sym w1) rk) sums in
            (
              c,
              IsSketch-cons f ok_f prg fuel idpf a b (point input values) node nodes s s' r x y _ _
                  _ sh got
                  (IsSketch-none nodes rs s' _ _ _ _ _ (omega arith) hr d' shared
                    (others level node nodes el ((==_iff _ _).0 same) hl (above, ho))
                    (AreSums-by f ok_f prg fuel idpf a b _ _ _ _ _ _ _ _ next (omega arith)
                      (omega arith) refl)),
            )
        | inr other ↦
            let none : point input values node ≡ (0, 0) = rw other refl in
            let (t, rest) =
              IsSketch-one level unit k at_level hu hk nodes rs s' _ _ n0 n1 n2 (omega arith) hr d'
                shared hl ho
                (after_zeros f ok_f prg fuel idpf a b r node _ x y n0 n1 n2 sh h none sums) in
            (
              t,
              IsSketch-cons f ok_f prg fuel idpf a b (point input values) node nodes s s' r x y _ _
                  _ sh got rest,
            )
      ]
