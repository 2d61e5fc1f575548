-- ===== src/Poplar1/WholeTables.antt =====
-- The whole tables of `ToyIdpf` in src/vdaf/poplar1.rs: the point function at every node.
use libprio_rs.Common.{
  ℕ, zero, suc, ◌+◌, ◌-◌, ◌%◌, ◌^◌, ◌≤◌, ◌<◌, ◌≡◌, refl, sym, ap, ◌∙◌, List, [], ◌∷◌, arith, false,
  length, set, All, ◌==◌, ==_iff, Bool-cases, inl, inr, map, length-map, replicate,
  length-replicate,
}
use libprio_rs.Field.{FieldType}
use libprio_rs.Poplar1.{IdpfInput}
use libprio_rs.Poplar1.Points.{
  IsInput, ancestor, place, value_at, point, IsValue, place-injective, ancestor-IsInput,
}
use libprio_rs.Poplar1.Tables.{at, fill, fill_missed, fill_hit}

set-All : (P : ℕ → Type 0) (xs : List ℕ) (i v : ℕ) → All P xs → P v → All P (set xs i v)
set-All P [] i v h hv = tt
set-All P (x ∷ xs) zero v (hx, h) hv = (hv, h)
set-All P (x ∷ xs) (suc i) v (hx, h) hv = (hx, set-All P xs i v h hv)

pub fill-All :
    (P : ℕ → Type 0) (input : IdpfInput) (level n : ℕ) (ks table : List ℕ)
    → All P ks
    → All P table
    → All P (fill input level n ks table)
fill-All P input level zero ks table hk h = h
fill-All P input level (suc n) [] table hk h = h
fill-All P input level (suc n) (k ∷ ks) table (h₁, hk) h =
    fill-All P input (suc level) n ks _ hk (set-All P table _ k h h₁)

at-replicate : (n i : ℕ) → at (replicate n 0) i ≡ 0
at-replicate zero i = refl
at-replicate (suc n) zero = refl
at-replicate (suc n) (suc i) = at-replicate n i

at-map :
    (g : ℕ × ℕ → ℕ) (values : List (ℕ × ℕ)) (i : ℕ)
    → g (0, 0) ≡ 0
    → at (map g values) i ≡ g (value_at values i)
at-map g [] i h = sym h
at-map g (v ∷ values) zero h = refl
at-map g (v ∷ values) (suc i) h = at-map g values i h

pub values-All :
    (f : FieldType) (values : List (ℕ × ℕ))
    → All (IsValue f) values
    → All (λ x. x < f.fp.p) (map (λ v. v.0) values) × All (λ x. x < f.fp.p) (map (λ v. v.1) values)
values-All f [] h = (tt, tt)
values-All f (v ∷ values) (hv, h) = let (h0, h1) = values-All f values h in ((hv.0, h0), (hv.1, h1))

pub from_root : (n : ℕ) → 2 ^ (0 + n) ≡ 2 ^ n
from_root n = ap (λ (t : ℕ). 2 ^ t) {x = 0 + n} {y = n} (omega arith)

-- A whole table: what stands at the place of a node is the value of the node's level at an ancestor
-- of the input, and 0 at any other node.
pub whole_table :
    (input : IdpfInput) (node : IdpfInput) (g : ℕ × ℕ → ℕ) (values : List (ℕ × ℕ))
    → g (0, 0) ≡ 0
    → IsInput input
    → input.level < 63
    → input.level < length values
    → IsInput node
    → node.level ≤ input.level
    → at
        (fill input 0 (input.level + 1) (map g values) (replicate (2 ^ (input.level + 1)) 0))
        (place node)
      ≡ g (point input values node)
whole_table input node g values g0 hi small len hn le =
    let zeros : List ℕ = replicate (2 ^ (input.level + 1)) 0 in
    let n = input.level + 1 in
    elim (Bool-cases (node.index == input.index % 2 ^ node.level)) [
      | inl same ↦
          let e : node.index ≡ input.index % 2 ^ node.level = (==_iff _ _).0 same in
          let there : place node ≡ place (ancestor input node.level) =
            ap (λ (t : ℕ). t + 2 ^ node.level) e in
          let start : node.level - 0 ≡ node.level = omega arith in
          rw (same, there)
            (fill_hit input 0 n (map g values) zeros node.level (omega arith) (omega arith)
                (omega arith) (omega (arith, length-map values g))
                (omega (arith, length-replicate {A = ℕ} (2 ^ n) 0, from_root n))
              ∙ rw start (at-map g values node.level g0))
      | inr other ↦ rw other (
          fill_missed input 0 n (map g values) zeros (place node) (λ i le' lt clash.
            let valid = ancestor-IsInput input i (omega arith) in
            let (levels, indices) = place-injective (ancestor input i) node valid hn clash in
            absurd (other_index i levels indices other))
          ∙ at-replicate (2 ^ n) (place node)
          ∙ sym g0)
    ]
  where
    other_index :
        (i : ℕ)
        → i ≡ node.level
        → input.index % 2 ^ i ≡ node.index
        → (node.index == input.index % 2 ^ node.level) ≡ false
        → ⊥
    other_index i el ei h =
        let e : input.index % 2 ^ i ≡ input.index % 2 ^ node.level =
          ap (λ (t : ℕ). input.index % 2 ^ t) el in
        let yes = (==_iff _ _).1 (sym ei ∙ e) in cc
