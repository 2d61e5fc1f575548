-- ===== src/Poplar1/InputBounds.antt =====
-- What `IdpfInput::new` of src/vdaf/poplar1.rs makes of its data, and where it panics.
use Prim.Native.Nat.{bit_and}
use libprio_rs.Common.{
  ℕ, zero, suc, ◌+◌, ◌-◌, ◌*◌, ◌/◌, ◌%◌, ◌^◌, ◌≤◌, ◌<◌, ◌≡◌, refl, sym, ap, ◌∙◌, List, [], ◌∷◌,
  arith, length, All, ltb, leb, lt→ltb, ltb→lt, leb→le, Bool-cases, inl, inr, pow_pos,
  if◌then◌else◌,
}
use libprio_rs.Common.Bits.{mod_double, bit_and-ones, bit_or-shifted}
use libprio_rs.Common.Congruence.{mod_congr}
use libprio_rs.Common.Words.{usize_word}
use libprio_rs.Outcome.{ok, err, panicked}
use libprio_rs.Fp.Power.{pow-add}
use libprio_rs.Vdaf.{VdafError, uncategorized, bit_length_exceeds_data}
use libprio_rs.Poplar1.Input.{put_bit, read_byte, read_bits, input_new}
use native.Mathlib.Nat.{
  pow-suc, pow-le-pow_right, mod-eq_of_lt, div-div-eq-div-mul, mul-le-mul, mod-lt,
}

-- The data as a little-endian integer.
abbrev pub from_le : List ℕ → ℕ
from_le [] = 0
from_le (b ∷ bs) = b + 256 * from_le bs

at_most : (b t : ℕ) → b < 2 → b * t ≤ t
at_most b t h =
    omega (arith, mul-le-mul {n₁ = b} {m₁ = t} {n₂ = 1} {m₂ = t} (omega arith) (omega arith))

-- Bits from the level on are dropped.
drop_bit : (level i v bit : ℕ) → level ≤ i → (v + bit * 2 ^ i) % 2 ^ level ≡ v % 2 ^ level
drop_bit level i v bit le =
    let d : i ≡ level + (i - level) = omega arith in
    let e : 2 ^ i ≡ 2 ^ level * 2 ^ (i - level) =
      ap (λ (t : ℕ). 2 ^ t) d ∙ pow-add 2 level (i - level) in
    mod_congr (2 ^ level) _ v 0 (bit * 2 ^ (i - level)) (omega (arith, ap (λ (t : ℕ). bit * t) e))

-- One bit of the index.
put_bit_lem {ℓ} :
    {E : Type ℓ} (level i v bit : ℕ)
    → v < 2 ^ i
    → bit < 2
    → (i < level → i < 64)
    → put_bit {E = E} level i bit (v % 2 ^ level) ≡ ok ((v + bit * 2 ^ i) % 2 ^ level)
unfolding put_bit
put_bit_lem level i v bit hv hb small = elim (Bool-cases (ltb i level)) [
  | inl inside ↦
      let lt = ltb→lt i level inside in
      let grows = pow-le-pow_right {n = 2} (omega arith) {i = suc i} {j = level} lt in
      let word = pow-le-pow_right {n = 2} (omega arith) {i = suc i} {j = 64} (small lt) in
      let double = pow-suc 2 i in
      let bounded : bit * 2 ^ i ≤ 2 ^ i = at_most bit (2 ^ i) hb in
      rw
        (
          inside,
          lt→ltb i 64 (small lt),
          mod-eq_of_lt {n = bit * 2 ^ i} {m = 2 ^ 64} (omega (arith, word, double)),
          mod-eq_of_lt {n = v} {m = 2 ^ level} (omega arith),
          bit_or-shifted i v bit hv,
          mod-eq_of_lt {n = v + bit * 2 ^ i} {m = 2 ^ level} (omega arith),
        )
        refl
  | inr outside ↦ rw (outside, drop_bit level i v bit (ground arith)) refl
]

-- The lowest of n + 1 bits, and the others.
lowest_bit : (x n : ℕ) → x % 2 ^ suc n ≡ x % 2 + 2 * (x / 2 % 2 ^ n)
lowest_bit x n = omega (
  arith,
  mod_double x (2 ^ n) (pow_pos 2 n (omega arith)),
  pow-suc 2 n,
  ap (λ (t : ℕ). x % t) {x = 2 ^ suc n} {y = 2 ^ n * 2} (pow-suc 2 n ∙ omega arith),
)

next_shift : (byte j : ℕ) → byte / 2 ^ (j + 1) ≡ byte / 2 ^ j / 2
next_shift byte j =
    ap (λ (t : ℕ). byte / t) {x = 2 ^ (j + 1)} {y = 2 ^ j * 2} (pow-add 2 j 1 ∙ omega arith)
    ∙ sym (div-div-eq-div-mul byte (2 ^ j) 2)

-- The bits of a byte from the j-th on.
read_byte_lem {ℓ} :
    {E : Type ℓ} (level byte i j n v : ℕ)
    → v < 2 ^ i
    → ((m : ℕ) → m < level → m < i + n → m < 64)
    → (read_byte {E = E} level byte i j n (v % 2 ^ level)
        ≡ ok ((v + byte / 2 ^ j % 2 ^ n * 2 ^ i) % 2 ^ level))
      × (v + byte / 2 ^ j % 2 ^ n * 2 ^ i < 2 ^ (i + n))
unfolding read_byte
read_byte_lem level byte i j zero v hv small =
    let none : byte / 2 ^ j % 2 ^ 0 ≡ 0 = omega arith in
    let same : v + 0 * 2 ^ i ≡ v = omega arith in
    let end : i + 0 ≡ i = omega arith in rw (none, same, end) (refl, hv)
read_byte_lem {E = E} level byte i j (suc n) v hv small =
    let x = byte / 2 ^ j in
    let bit : bit_and x 1 ≡ x % 2 = bit_and-ones 1 x in
    let double : 2 ^ (i + 1) ≡ 2 * 2 ^ i = pow-add 2 i 1 ∙ omega arith in
    let low : x % 2 * 2 ^ i ≤ 2 ^ i = at_most (x % 2) (2 ^ i) (omega arith) in
    let v' = v + x % 2 * 2 ^ i in
    let (rest, below) =
      read_byte_lem {E = E} level byte (i + 1) (j + 1) n v' (omega (arith, double))
        (λ m lt inside. small m lt (omega arith)) in
    let put =
      put_bit_lem {E = E} level i v (x % 2) hv (omega arith) (λ lt. small i lt (omega arith)) in
    let parts : x % 2 ^ suc n * 2 ^ i ≡ x % 2 * 2 ^ i + byte / 2 ^ (j + 1) % 2 ^ n * 2 ^ (i + 1) =
      rw (next_shift byte j, double) (ap (λ (t : ℕ). t * 2 ^ i) (lowest_bit x n) ∙ omega arith) in
    let total : v + x % 2 ^ suc n * 2 ^ i ≡ v' + byte / 2 ^ (j + 1) % 2 ^ n * 2 ^ (i + 1) =
      omega (arith, parts) in
    let end : i + suc n ≡ i + 1 + n = omega arith in rw (bit, put, total, end) (rest, below)

-- The index after all the data: the lowest bits of its integer.
read_bits_lem {ℓ} :
    {E : Type ℓ} (level i v : ℕ) (bytes : List ℕ)
    → All (λ b. b < 256) bytes
    → v < 2 ^ i
    → level ≤ 64
    → read_bits {E = E} level i (v % 2 ^ level) bytes ≡ ok ((v + from_le bytes * 2 ^ i) % 2 ^ level)
unfolding read_bits
read_bits_lem level i v [] h hv small =
    ap (λ (t : ℕ). ok (t % 2 ^ level)) {x = v} {y = v + 0 * 2 ^ i} (omega arith)
read_bits_lem {E = E} level i v (byte ∷ bytes) (hb, h) hv small =
    let (first, below) = read_byte_lem {E = E} level byte i 0 8 v hv (λ m lt inside. omega arith) in
    let whole : byte / 2 ^ 0 % 2 ^ 8 ≡ byte = omega arith in
    let v' = v + byte * 2 ^ i in
    let wide : 2 ^ (i + 8) ≡ 256 * 2 ^ i = pow-add 2 i 8 ∙ omega arith in
    let total : v' + from_le bytes * 2 ^ (i + 8) ≡ v + (byte + 256 * from_le bytes) * 2 ^ i =
      ap (λ (t : ℕ). v' + from_le bytes * t) wide ∙ omega arith in
    let below' : v' < 2 ^ (i + 8) = rw whole at below in
    let first' = rw whole at first in
    rw (first', ← total) (read_bits_lem level (i + 8) v' bytes h below' small)

shift_overflow {ℓ} :
    {E : Type ℓ} (level byte n index : ℕ)
    → 64 < level
    → read_byte {E = E} level byte 64 0 (suc n) index ≡ panicked
unfolding read_byte put_bit
shift_overflow level byte n index large = rw (lt→ltb 64 level large) refl

-- With more than 64 bits the loop shifts a bit by 64.
read_bits_overflow {ℓ} :
    {E : Type ℓ} (level k v : ℕ) (bytes : List ℕ)
    → All (λ b. b < 256) bytes
    → v < 2 ^ (8 * k)
    → 64 < level
    → k ≤ 8
    → 8 < k + length bytes
    → read_bits {E = E} level (8 * k) (v % 2 ^ level) bytes ≡ panicked
unfolding read_bits
read_bits_overflow level k v [] h hv large le more = absurd (omega arith)
read_bits_overflow {E = E} level k v (byte ∷ bytes) (hb, h) hv large le more =
    elim (Bool-cases (ltb k 8)) [
      | inl early ↦
          let lt = ltb→lt k 8 early in
          let (first, below) =
            read_byte_lem {E = E} level byte (8 * k) 0 8 v hv (λ m lt' inside. omega arith) in
          let further : 8 * k + 8 ≡ 8 * suc k = omega arith in
          let below' = rw further at below in
          rw (first, further)
            (read_bits_overflow {E = E} level (suc k) _ bytes h below' large lt (omega arith))
      | inr last ↦
          let end : 8 * k ≡ 64 = ground arith in
          rw (end, shift_overflow {E = E} level byte 7 (v % 2 ^ level) large) refl
    ]

-- For data of bytes whose length in bits is a `usize`, `IdpfInput::new` is an error where the level is
-- above the data's bits. Of the other levels it takes those up to 64, with the first `level` bits of
-- the data as a little-endian integer for the index, and panics on the overflow of a shift with those
-- above. An index that it returns is below 2 ^ level.
pub input_new-bounds :
    (bytes : List ℕ) (level : ℕ)
    → All (λ b. b < 256) bytes
    → length bytes * 8 < 2 ^ 64
    → (input_new bytes level ≡ (
        if leb level (length bytes * 8)
        then (if leb level 64
            then ok (record { index = from_le bytes % 2 ^ level; level = level })
            else panicked)
        else err (uncategorized (bit_length_exceeds_data level (length bytes)))))
      × (from_le bytes % 2 ^ level < 2 ^ level)
unfolding input_new
input_new-bounds bytes level h fits =
    let bits : length bytes * 2 ^ 3 % usize_word ≡ length bytes * 8 = omega arith in
    let pos = pow_pos 2 level (omega arith) in
    let start : 0 % 2 ^ level ≡ 0 = mod-eq_of_lt pos in
    (
      elim (Bool-cases (leb level (length bytes * 8))) [
        | inr more ↦ rw (bits, more) refl
        | inl enough ↦ elim (Bool-cases (leb level 64)) [
          | inl small ↦
              let value : 0 + from_le bytes * 2 ^ 0 ≡ from_le bytes = omega arith in
              let all = rw start at (
                read_bits_lem {E = VdafError} level 0 0 bytes h (omega arith)
                  (leb→le level 64 small)) in
              rw (bits, enough, small, all, value) refl
          | inr large ↦
              let le = leb→le level (length bytes * 8) enough in
              let lt : 64 < level = ground arith in
              let over = rw start at (
                read_bits_overflow {E = VdafError} level 0 0 bytes h (omega arith) lt (omega arith)
                  (omega arith)) in
              rw (bits, enough, large, over) refl
        ]
      ],
      mod-lt (from_le bytes) pos,
    )
