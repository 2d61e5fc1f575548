-- ===== src/Poplar1/Tables.antt =====
-- The tables of `ToyIdpf` in src/vdaf/poplar1.rs: what the loop of `gen` writes, and what stands at the
-- place of a node.
use libprio_rs.Common.{
  ℕ, zero, suc, ◌+◌, ◌-◌, ◌^◌, ◌≤◌, ◌<◌, ◌≡◌, ◌≢◌, refl, ap, ◌∙◌, List, [], ◌∷◌, arith, length, set,
  All, ltb, lt→ltb, Bool-cases, inl, inr, map,
}
use libprio_rs.Outcome.{ok}
use libprio_rs.Field.{FieldType, index, plus, add_each}
use libprio_rs.Field.Digits.{length-set}
use libprio_rs.Poplar1.{IdpfInput}
use libprio_rs.Poplar1.Points.{
  ancestor, place, prefix_lem, data_index_lem, ancestor-IsInput, place-lt, place_deeper,
}
use libprio_rs.Poplar1.Toy.{fill_tables}
use native.Mathlib.Nat.{pow-le-pow_right}

-- The i-th element, or 0.
abbrev pub at : List ℕ → ℕ → ℕ
at [] i = 0
at (x ∷ xs) zero = x
at (x ∷ xs) (suc i) = at xs i

pub index-at {ℓ} :
    {E : Type ℓ} (xs : List ℕ) (i : ℕ) → i < length xs → index {E = E} xs i ≡ ok (at xs i)
index-at [] i h = absurd (omega arith)
index-at (x ∷ xs) zero h = refl
index-at (x ∷ xs) (suc i) h = index-at xs i (omega arith)

at-set_same : (xs : List ℕ) (i v : ℕ) → i < length xs → at (set xs i v) i ≡ v
at-set_same [] i v h = absurd (omega arith)
at-set_same (x ∷ xs) zero v h = refl
at-set_same (x ∷ xs) (suc i) v h = at-set_same xs i v (omega arith)

at-set_other : (xs : List ℕ) (i j v : ℕ) → i ≢ j → at (set xs i v) j ≡ at xs j
at-set_other [] i j v h = refl
at-set_other (x ∷ xs) zero zero v h = absurd (h refl)
at-set_other (x ∷ xs) zero (suc j) v h = refl
at-set_other (x ∷ xs) (suc i) zero v h = refl
at-set_other (x ∷ xs) (suc i) (suc j) v h = at-set_other xs i j v (λ e. h (ap suc e))

pub at-add_each :
    (f : FieldType) (xs ys : List ℕ) (i : ℕ)
    → i < length xs
    → length xs ≡ length ys
    → at (add_each f xs ys) i ≡ plus f (at xs i) (at ys i)
unfolding add_each
at-add_each f [] ys i h e = absurd (omega arith)
at-add_each f (x ∷ xs) [] i h e = absurd (omega arith)
at-add_each f (x ∷ xs) (y ∷ ys) zero h e = refl
at-add_each f (x ∷ xs) (y ∷ ys) (suc i) h e = at-add_each f xs ys i (omega arith) (omega arith)

pub at-All : (P : ℕ → Type 0) (xs : List ℕ) (i : ℕ) → All P xs → i < length xs → P (at xs i)
at-All P [] i h lt = absurd (omega arith)
at-All P (x ∷ xs) zero (hx, h) lt = hx
at-All P (x ∷ xs) (suc i) (hx, h) lt = at-All P xs i h (omega arith)

-- One of the tables after the loop.
abbrev pub fill : IdpfInput → (level n : ℕ) → List ℕ → List ℕ → List ℕ
fill input level zero ks table = table
fill input level (suc n) [] table = table
fill input level (suc n) (k ∷ ks) table =
    fill input (suc level) n ks (set table (place (ancestor input level)) k)

pub length-fill :
    (input : IdpfInput) (level n : ℕ) (ks table : List ℕ)
    → length (fill input level n ks table) ≡ length table
length-fill input level zero ks table = refl
length-fill input level (suc n) [] table = refl
length-fill input level (suc n) (k ∷ ks) table =
    length-fill input (suc level) n ks _ ∙ length-set table (place (ancestor input level)) k

pub fill_tables_lem {ℓ} :
    {E : Type ℓ} (input : IdpfInput) (level n : ℕ) (values : List (ℕ × ℕ)) (table0 table1 : List ℕ)
    → level + n ≤ 64
    → n ≤ length values
    → 2 ^ (level + n) ≤ length table0
    → 2 ^ (level + n) ≤ length table1
    → fill_tables {E = E} input level n values table0 table1
      ≡ ok (
        fill input level n (map (λ v. v.0) values) table0,
        fill input level n (map (λ v. v.1) values) table1,
      )
unfolding fill_tables
fill_tables_lem input level zero values table0 table1 hl hn h0 h1 = refl
fill_tables_lem input level (suc n) [] table0 table1 hl hn h0 h1 = absurd (omega arith)
fill_tables_lem input level (suc n) (v ∷ values) table0 table1 hl hn h0 h1 =
    let node = ancestor input level in
    let valid = ancestor-IsInput input level (omega arith) in
    let i = place node in
    let deep =
      pow-le-pow_right {n = 2} (omega arith) {i = suc level} {j = level + suc n} (omega arith) in
    let below : i < 2 ^ suc level = place-lt node valid in
    let e : suc level + n ≡ level + suc n = omega arith in
    rw
      (
        prefix_lem input level (omega arith),
        data_index_lem node valid,
        lt→ltb i (length table0) (omega (arith, h0, deep, below)),
        lt→ltb i (length table1) (omega (arith, h1, deep, below)),
      )
      (fill_tables_lem input (suc level) n values (set table0 i v.0) (set table1 i v.1)
        (omega arith) (omega arith) (rw (e, length-set table0 i v.0) h0)
        (rw (e, length-set table1 i v.1) h1))

-- A place that no level left writes to.
pub fill_missed :
    (input : IdpfInput) (level n : ℕ) (ks table : List ℕ) (j : ℕ)
    → ((i : ℕ) → level ≤ i → i < level + n → place (ancestor input i) ≢ j)
    → at (fill input level n ks table) j ≡ at table j
fill_missed input level zero ks table j h = refl
fill_missed input level (suc n) [] table j h = refl
fill_missed input level (suc n) (k ∷ ks) table j h =
    fill_missed input (suc level) n ks _ j (λ i le lt. h i (omega arith) (omega arith))
    ∙ at-set_other table (place (ancestor input level)) j k (h level (omega arith) (omega arith))

-- The place of an ancestor, whose level is among those left.
pub fill_hit :
    (input : IdpfInput) (level n : ℕ) (ks table : List ℕ) (l : ℕ)
    → level ≤ l
    → l < level + n
    → level + n ≤ 64
    → n ≤ length ks
    → 2 ^ (level + n) ≤ length table
    → at (fill input level n ks table) (place (ancestor input l)) ≡ at ks (l - level)
fill_hit input level zero ks table l le lt hl hn h = absurd (omega arith)
fill_hit input level (suc n) [] table l le lt hl hn h = absurd (omega arith)
fill_hit input level (suc n) (k ∷ ks) table l le lt hl hn h =
    let node = ancestor input level in
    let i = place node in
    let e : suc level + n ≡ level + suc n = omega arith in
    elim (Bool-cases (ltb level l)) [
      | inl later ↦
          let d : l - level ≡ suc (l - suc level) = ground arith in
          rw d (
            fill_hit input (suc level) n ks (set table i k) l (ground arith) (omega arith)
              (omega arith) (omega arith) (rw (e, length-set table i k) h))
      | inr here ↦
          let same : l ≡ level = ground arith in
          let d : level - level ≡ 0 = omega arith in
          let valid = ancestor-IsInput input level (omega arith) in
          let deep =
            pow-le-pow_right {n = 2} (omega arith) {i = suc level} {j = level + suc n}
              (omega arith) in
          rw (same, d)
            (fill_missed input (suc level) n ks (set table i k) i (λ m le' lt' clash.
                absurd
                  (omega (arith, clash, place_deeper node (ancestor input m) valid (omega arith))))
              ∙ at-set_same table i k (omega (arith, place-lt node valid, deep)))
    ]
