-- ===== src/Fp/Log2.antt =====
-- `leading_zeros` and `log2`.
use libprio_rs.Common.{
  ℕ, zero, suc, ◌+◌, ◌-◌, ◌*◌, ◌/◌, ◌%◌, ◌^◌, ◌≤◌, ◌<◌, ◌≡◌, ap, Bool, true, false, arith, ◌==◌,
  ltb, ltb→lt, Bool-cases, ==_iff, inl, inr, pow_pos,
}
use libprio_rs.Common.Words.{bool_word}
use libprio_rs.Fp.{leading_zeros_of, leading_zeros, log2}
use native.Mathlib.Nat.{
  pow-suc, lt-div-mul-add, suc-sub-suc, sub-zero, div-add-mod, pow-le-pow_right, mod-eq_of_lt,
  mul-le-mul_left,
}

-- `leading_zeros` leaves the bits that the number needs.
pub leading_zeros_of_lem :
    (n x : ℕ) → x < 2 ^ n → (leading_zeros_of n x ≤ n) × (x < 2 ^ (n - leading_zeros_of n x))
unfolding leading_zeros_of
leading_zeros_of_lem zero x h = (omega arith, h)
leading_zeros_of_lem (suc n) x h = elim (Bool-cases (x / 2 ^ n == 0)) [
  | inl small ↦
      let e : x / 2 ^ n ≡ 0 = (==_iff _ _).0 small in
      let below : x < 2 ^ n = omega (
        arith,
        lt-div-mul-add {a = x} {b = 2 ^ n} (pow_pos 2 n (omega arith)),
        ap (λ (t : ℕ). t * 2 ^ n) e,
      ) in
      let (le, lt) = leading_zeros_of_lem n x below in
      rw small (omega (arith, le), rw suc-sub-suc lt)
  | inr large ↦ rw (large, sub-zero) (omega arith, h)
]

pub leading_zeros_lem :
    (x : ℕ) → x < 2 ^ 128 → (leading_zeros x ≤ 128) × (x < 2 ^ (128 - leading_zeros x))
unfolding leading_zeros
leading_zeros_lem = leading_zeros_of_lem 128

-- The bit below the leading zeros is set.
leading_zeros_of_top :
    (n x : ℕ)
    → 0 < x
    → x < 2 ^ n
    → (leading_zeros_of n x < n) × (2 ^ (n - 1 - leading_zeros_of n x) ≤ x)
unfolding leading_zeros_of
leading_zeros_of_top zero x pos h = absurd (omega arith)
leading_zeros_of_top (suc n) x pos h = elim (Bool-cases (x / 2 ^ n == 0)) [
  | inl small ↦
      let e : x / 2 ^ n ≡ 0 = (==_iff _ _).0 small in
      let below : x < 2 ^ n = omega (
        arith,
        lt-div-mul-add {a = x} {b = 2 ^ n} (pow_pos 2 n (omega arith)),
        ap (λ (t : ℕ). t * 2 ^ n) e,
      ) in
      let (lt, le) = leading_zeros_of_top n x pos below in
      let same : suc n - 1 - suc (leading_zeros_of n x) ≡ n - 1 - leading_zeros_of n x =
        omega arith in
      rw (small, same) (omega (arith, lt), le)
  | inr large ↦
      let same : suc n - 1 - 0 ≡ n = omega arith in
      let ne : 1 ≤ x / 2 ^ n = ground arith in
      rw (large, same)
        (omega arith, omega (arith, div-add-mod x (2 ^ n), mul-le-mul_left {m = 1} (2 ^ n) ne))
]

leading_zeros-top :
    (x : ℕ) → 0 < x → x < 2 ^ 128 → (leading_zeros x < 128) × (2 ^ (127 - leading_zeros x) ≤ x)
unfolding leading_zeros
leading_zeros-top = leading_zeros_of_top 128

-- Powers of two are ordered as their exponents.
exponent_lt : (x y l : ℕ) → x ≤ 2 ^ l → 2 ^ y < x → y < l
exponent_lt x y l hl hy = elim (Bool-cases (ltb y l)) [
  | inl h ↦ ltb→lt y l h
  | inr h ↦
      absurd (omega (arith, pow-le-pow_right {n = 2} (omega arith) {i = l} {j = y} (ground arith)))
]

-- The place of the highest bit that is set.
abbrev top_bit : ℕ → ℕ
top_bit x = 127 - leading_zeros x

log2_value :
    (x : ℕ) → leading_zeros x < 128 → log2 x ≡ top_bit x + bool_word (ltb (2 ^ top_bit x) x)
unfolding log2
log2_value x h =
    let e : (127 + 2 ^ 32 - leading_zeros x) % 2 ^ 32 ≡ top_bit x = omega arith in
    let e' : top_bit x % 128 ≡ top_bit x = omega arith in
    rw (e, e') (mod-eq_of_lt (bool_word-bound (ltb (2 ^ top_bit x) x)))
  where
    bool_word-bound : (b : Bool) → top_bit x + bool_word b < 2 ^ 128
    bool_word-bound true = omega arith
    bool_word-bound false = omega arith

log2_lem : (x : ℕ) → 0 < x → x < 2 ^ 128 → (x ≤ 2 ^ log2 x) × ((l : ℕ) → x ≤ 2 ^ l → log2 x ≤ l)
log2_lem x pos h =
    let (k, below) = leading_zeros-top x pos h in
    let next : 128 - leading_zeros x ≡ suc (top_bit x) = omega arith in
    let above : x < 2 ^ suc (top_bit x) = rw next at ((leading_zeros_lem x h).1) in
    rw (log2_value x k) (elim (Bool-cases (ltb (2 ^ top_bit x) x)) [
      | inl more ↦
          let e : top_bit x + 1 ≡ suc (top_bit x) = omega arith in
          rw (more, e)
            (omega (arith, above), λ l hl. exponent_lt x (top_bit x) l hl (ltb→lt _ _ more))
      | inr exact ↦
          let e : top_bit x + 0 ≡ top_bit x = omega arith in
          rw (exact, e) (ground arith, λ l hl. least l hl)
    ])
  where
    least : (l : ℕ) → x ≤ 2 ^ l → top_bit x ≤ l
    least l hl =
        let (k, below) = leading_zeros-top x pos h in
        omega (
          arith,
          exponent_lt (suc x) (top_bit x) (suc l)
              (omega (arith, hl, pow-suc 2 l, pow_pos 2 l (omega arith))) (omega (arith, below)),
        )

-- `log2 x` is the least exponent l with x ≤ 2 ^ l, for every `u128` but 0.
pub log2-least : (x l : ℕ) → 0 < x → x < 2 ^ 128 → x ≤ 2 ^ l → (x ≤ 2 ^ log2 x) × (log2 x ≤ l)
log2-least x l pos h hl = let (enough, least) = log2_lem x pos h in (enough, least l hl)
