-- ===== src/Poplar1/Points.antt =====
-- What an incremental distributed point function promises, and the inputs of src/vdaf/poplar1.rs as
-- numbers.
use Prim.Native.Nat.{bit_or}
use libprio_rs.Common.{
  ℕ, zero, suc, ◌+◌, ◌*◌, ◌%◌, ◌^◌, ◌≤◌, ◌<◌, ◌≡◌, refl, ap, ◌∙◌, List, [], ◌∷◌, arith, length, All,
  ◌==◌, if◌then◌else◌, ltb, lt→ltb, ltb→lt, Bool-cases, inl, inr, pow_pos,
}
use libprio_rs.Common.Bits.{bit_and-ones, bit_or-shifted}
use libprio_rs.Outcome.{ok}
use libprio_rs.Field.{FieldType, plus}
use libprio_rs.Poplar1.{IdpfInput, Idpf}
use libprio_rs.Poplar1.Input.{prefix, data_index}
use native.Mathlib.Nat.{pow-suc, mod-lt, mod-eq_of_lt, pow-le-pow_right}

-- The level is a shift's width, and the index has as many bits as the level.
abbrev pub IsInput : IdpfInput → Type 0
IsInput x = (x.level < 64) × (x.index < 2 ^ x.level)

-- The first `level` bits of an input.
abbrev pub ancestor : IdpfInput → ℕ → IdpfInput
ancestor x level = record { index = x.index % 2 ^ level; level = level }

-- The place of an input in the tables.
abbrev pub place : IdpfInput → ℕ
place x = x.index + 2 ^ x.level

-- The i-th value, or zeros.
abbrev pub value_at : List (ℕ × ℕ) → ℕ → ℕ × ℕ
value_at [] i = (0, 0)
value_at (v ∷ values) zero = v
value_at (v ∷ values) (suc i) = value_at values i

-- The point function of an input: its value of the level at the input's own ancestors, and zeros
-- everywhere else.
abbrev pub point : IdpfInput → List (ℕ × ℕ) → IdpfInput → ℕ × ℕ
point input values node =
    if node.index == input.index % 2 ^ node.level then value_at values node.level else (0, 0)

abbrev pub IsValue : FieldType → ℕ × ℕ → Type 0
IsValue f v = (v.0 < f.fp.p) × (v.1 < f.fp.p)

-- Two keys evaluate to additive shares of a value.
pub record IsShared {Key : Type 0} (f : FieldType) (idpf : Idpf Key) (a b : Key) (node : IdpfInput)
    (value : ℕ × ℕ) : Type 0 where
  pub first : ℕ × ℕ
  pub second : ℕ × ℕ
  pub first_eval : idpf.eval a node ≡ ok first
  pub second_eval : idpf.eval b node ≡ ok second
  pub first_IsValue : IsValue f first
  pub second_IsValue : IsValue f second
  pub sum0 : plus f (first.0) (second.0) ≡ value.0
  pub sum1 : plus f (first.1) (second.1) ≡ value.1

-- The keys that `gen` makes of an input share its point function, on every node of the tree down to
-- the input's level.
pub record IsIdpf {Key : Type 0} (f : FieldType) (idpf : Idpf Key) : Type 0 where
  pub shares :
      (input : IdpfInput) (values : List (ℕ × ℕ)) (a b : Key)
      → IsInput input
      → input.level < length values
      → All (IsValue f) values
      → idpf.gen input values ≡ ok (a, b)
      → (node : IdpfInput) → IsInput node
      → node.level ≤ input.level
      → IsShared f idpf a b node (point input values node)

pub one_bit : (k : ℕ) → k < 64 → 1 * 2 ^ k % 2 ^ 64 ≡ 2 ^ k
one_bit k h =
    let below = pow-le-pow_right {n = 2} (omega arith) {i = suc k} {j = 64} (omega arith) in
    let pos = pow_pos 2 k (omega arith) in
    ap (λ (t : ℕ). t % 2 ^ 64) {x = 1 * 2 ^ k} {y = 2 ^ k} (omega arith)
    ∙ mod-eq_of_lt (omega (arith, pow-suc 2 k))

pub prefix_lem {ℓ} :
    {E : Type ℓ} (x : IdpfInput) (level : ℕ)
    → level < 64
    → prefix {E = E} x level ≡ ok (ancestor x level)
unfolding prefix
prefix_lem x level h = rw (lt→ltb level 64 h, one_bit level h, bit_and-ones level x.index) refl

pub data_index_lem {ℓ} :
    {E : Type ℓ} (x : IdpfInput) → IsInput x → data_index {E = E} x ≡ ok (place x)
unfolding data_index
data_index_lem x (h, below) = rw (lt→ltb x.level 64 h) (
    ap (λ (t : ℕ). ok (bit_or x.index t)) {x = 1 * 2 ^ x.level % 2 ^ 64} {y = 1 * 2 ^ x.level}
      (one_bit x.level h ∙ omega arith)
    ∙ ap ok (bit_or-shifted x.level x.index 1 below ∙ omega arith))

pub ancestor-IsInput : (x : IdpfInput) (level : ℕ) → level < 64 → IsInput (ancestor x level)
ancestor-IsInput x level h = (h, mod-lt x.index (pow_pos 2 level (omega arith)))

pub place-lt : (x : IdpfInput) → IsInput x → place x < 2 ^ suc x.level
place-lt x (h, below) = omega (arith, pow-suc 2 x.level)

-- A level's places are behind those of the levels before.
pub place_deeper : (x y : IdpfInput) → IsInput x → x.level < y.level → place x < place y
place_deeper x y h lt =
    let le = pow-le-pow_right {n = 2} (omega arith) {i = suc x.level} {j = y.level} (omega arith) in
    omega (arith, place-lt x h, le)

pub place-injective :
    (x y : IdpfInput)
    → IsInput x
    → IsInput y
    → place x ≡ place y
    → (x.level ≡ y.level) × (x.index ≡ y.index)
place-injective x y hx hy e = elim (Bool-cases (ltb x.level y.level)) [
  | inl lt ↦ absurd (omega (arith, place_deeper x y hx (ltb→lt _ _ lt)))
  | inr ge ↦ elim (Bool-cases (ltb y.level x.level)) [
    | inl lt ↦ absurd (omega (arith, place_deeper y x hy (ltb→lt _ _ lt)))
    | inr le ↦
        let same : x.level ≡ y.level = ground arith in
        let powers : 2 ^ x.level ≡ 2 ^ y.level = ap (λ (t : ℕ). 2 ^ t) same in (same, omega arith)
  ]
]
