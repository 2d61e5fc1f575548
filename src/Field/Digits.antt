-- ===== src/Field/Digits.antt =====
-- Lists by their entries, and numbers by their digits in base 256.
use libprio_rs.Common.{
  ℕ, zero, suc, ◌+◌, ◌-◌, ◌*◌, ◌/◌, ◌%◌, ◌^◌, ◌<◌, ◌≡◌, ◌≢◌, refl, ap, ◌∙◌, some, List, [], ◌∷◌,
  arith, length, get_elem?, set, pow_pos, Bool-cases, inl, inr, ◌==◌, All,
}
use libprio_rs.Common.Digits.{split_digit}
use libprio_rs.Fp.Power.{pow-add}
use native.Mathlib.Nat.{pow-suc, mul-le-mul_right, add-mul-div_right, div-eq_of_lt}

-- A list from its entries.
abbrev pub table : ℕ → (ℕ → ℕ) → List ℕ
table zero g = []
table (suc n) g = g 0 ∷ table n (λ i. g (suc i))

pub length-table : (n : ℕ) (g : ℕ → ℕ) → length (table n g) ≡ n
length-table zero g = refl
length-table (suc n) g = ap suc (length-table n (λ i. g (suc i)))

pub get_elem?-table : (n : ℕ) (g : ℕ → ℕ) (k : ℕ) → k < n → get_elem? (table n g) k ≡ some (g k)
get_elem?-table zero g k h = absurd (omega arith)
get_elem?-table (suc n) g zero h = refl
get_elem?-table (suc n) g (suc k) h = get_elem?-table n (λ i. g (suc i)) k (omega arith)

-- A list whose entries are those of the table is the table.
pub table_unique :
    (xs : List ℕ) (n : ℕ) (g : ℕ → ℕ)
    → length xs ≡ n
    → ((k : ℕ) → k < n → get_elem? xs k ≡ some (g k))
    → xs ≡ table n g
table_unique [] zero g e h = refl
table_unique [] (suc n) g e h = absurd (omega arith)
table_unique (x ∷ xs) zero g e h = absurd (omega arith)
table_unique (x ∷ xs) (suc n) g e h =
    let head : x ≡ g 0 = cc (h 0 (omega arith)) in
    let tail = table_unique xs n (λ i. g (suc i)) (omega arith) (λ k hk. h (suc k) (omega arith)) in
    rw (head, tail) refl

pub get_elem?-set : (xs : List ℕ) (k v : ℕ) → k < length xs → get_elem? (set xs k v) k ≡ some v
get_elem?-set [] k v h = absurd (omega arith)
get_elem?-set (x ∷ xs) zero v h = refl
get_elem?-set (x ∷ xs) (suc k) v h = get_elem?-set xs k v (omega arith)

pub get_elem?-set_other :
    (xs : List ℕ) (k j v : ℕ) → j ≢ k → get_elem? (set xs k v) j ≡ get_elem? xs j
get_elem?-set_other [] k j v h = refl
get_elem?-set_other (x ∷ xs) zero zero v h = absurd (h refl)
get_elem?-set_other (x ∷ xs) zero (suc j) v h = refl
get_elem?-set_other (x ∷ xs) (suc k) zero v h = refl
get_elem?-set_other (x ∷ xs) (suc k) (suc j) v h = get_elem?-set_other xs k j v (λ e. h (ap suc e))

pub length-set : (xs : List ℕ) (k v : ℕ) → length (set xs k v) ≡ length xs
length-set [] k v = refl
length-set (x ∷ xs) zero v = refl
length-set (x ∷ xs) (suc k) v = ap suc (length-set xs k v)

unfoldable pub digit : ℕ → ℕ → ℕ
digit v i = v / 256 ^ i % 256

-- The number with the lowest `n` digits `d`.
abbrev pub number : (ℕ → ℕ) → ℕ → ℕ
number d zero = 0
number d (suc n) = number d n + d n * 256 ^ n

pub number-lt : (d : ℕ → ℕ) (n : ℕ) → ((i : ℕ) → i < n → d i < 256) → number d n < 256 ^ n
number-lt d zero h = omega arith
number-lt d (suc n) h = omega (
  arith,
  pow-suc 256 n,
  number-lt d n (λ i hi. h i (omega arith)),
  mul-le-mul_right {m = d n} {n = 255} (256 ^ n) (omega (arith, h n (omega arith))),
)

power_split : (k i : ℕ) → 256 ^ (k + suc i) ≡ 256 ^ k * 256 * 256 ^ i
power_split k zero =
    omega (arith, pow-suc 256 k, ap (λ (t : ℕ). 256 ^ t) {x = k + 1} {y = suc k} (omega arith))
power_split k (suc i) =
    ap (λ (t : ℕ). 256 ^ t) {x = k + suc (suc i)} {y = suc (k + suc i)} (omega arith)
    ∙ rw (pow-suc 256 (k + suc i), power_split k i, pow-suc 256 i) (omega arith)

pub digit-number :
    (d : ℕ → ℕ) (n i : ℕ) → ((k : ℕ) → k < n → d k < 256) → i < n → number d n / 256 ^ i % 256 ≡ d i
digit-number d zero i h hi = absurd (omega arith)
digit-number d (suc n) i h hi = elim (Bool-cases (i == n)) [
  | inl top ↦
      let e : i ≡ n = ground arith in
      rw
        (
          e,
          add-mul-div_right (number d n) (d n) (pow_pos 256 n (omega arith)),
          div-eq_of_lt (number-lt d n (λ k hk. h k (omega arith))),
        )
        (omega (arith, h n (omega arith)))
  | inr below ↦
      let hi' : i < n = ground arith in
      let split : 256 ^ n ≡ 256 ^ (n - suc i) * 256 * 256 ^ i =
        ap (λ (t : ℕ). 256 ^ t) {x = n} {y = n - suc i + suc i} (omega arith)
        ∙ power_split (n - suc i) i in
      let q = 256 ^ (n - suc i) in
      let e : number d n + d n * 256 ^ n ≡ number d n + d n * q * 256 * 256 ^ i =
        omega (arith, ap (λ (t : ℕ). d n * t) split) in
      rw (e, add-mul-div_right (number d n) (d n * q * 256) (pow_pos 256 i (omega arith)))
        (omega (arith, digit-number d n i (λ k hk. h k (omega arith)) hi'))
]

pub number-digit : (v n : ℕ) → number (digit v) n ≡ v % 256 ^ n
unfolding digit
number-digit v zero = omega arith
number-digit v (suc n) =
    rw (number-digit v n, pow-suc)
      (omega (arith, split_digit v (256 ^ n) (pow_pos 256 n (omega arith))))

pub shift_256 : (i : ℕ) → 2 ^ (i * 8) ≡ 256 ^ i
shift_256 zero = refl
shift_256 (suc i) =
    ap (λ (t : ℕ). 2 ^ t) {x = suc i * 8} {y = i * 8 + 8} (omega arith)
    ∙ pow-add 2 (i * 8) 8
    ∙ rw (shift_256 i, pow-suc 256 i) refl

-- The entries of a list, 0 behind its end.
abbrev pub entry : List ℕ → ℕ → ℕ
entry [] i = 0
entry (x ∷ xs) zero = x
entry (x ∷ xs) (suc i) = entry xs i

pub entry-lt : (xs : List ℕ) (i : ℕ) → All (λ b. b < 256) xs → entry xs i < 256
entry-lt [] i h = omega arith
entry-lt (x ∷ xs) zero (hx, h) = hx
entry-lt (x ∷ xs) (suc i) (hx, h) = entry-lt xs i h

pub get_elem?-entry : (xs : List ℕ) (i : ℕ) → i < length xs → get_elem? xs i ≡ some (entry xs i)
get_elem?-entry [] i h = absurd (omega arith)
get_elem?-entry (x ∷ xs) zero h = refl
get_elem?-entry (x ∷ xs) (suc i) h = get_elem?-entry xs i (omega arith)
