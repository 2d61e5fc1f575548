-- ===== src/Polynomial.antt =====
-- src/polynomial.rs: evaluation, degree, multiplication and range checks of polynomials, which are slices of
-- coefficients, the constant one first.
pub mod Evaluation
pub mod Rows
pub mod Product
use libprio_rs.Common.{
  ℕ, zero, suc, ◌+◌, ◌-◌, ◌*◌, ◌^◌, ltb, Bool, List, [], ◌∷◌, ◌&&◌, length, set, take, replicate,
  get_elem?, Option, some, none, if◌then◌else◌,
}
use libprio_rs.Outcome.{Outcome, ok, err, panicked, diverged, ◌>>=◌}
use libprio_rs.Fp.{add, mul, neg}
use libprio_rs.Field.{FieldType, index, eq, one, from_integer}

module _ (f : FieldType) where
  -- `for i in (0..i).rev()` in `poly_eval`.
  unfoldable pub eval_loop : List ℕ → ℕ → ℕ → ℕ → Outcome ⊥ ℕ
  eval_loop poly eval_at zero result = ok result
  eval_loop poly eval_at (suc i) result = do
    x ← index poly i
    eval_loop poly eval_at i (add f.fp (mul f.fp result eval_at) x)

  unfoldable pub poly_eval : List ℕ → ℕ → Outcome ⊥ ℕ
  poly_eval [] eval_at = ok 0
  poly_eval (c ∷ cs) eval_at = do
    result ← index (c ∷ cs) (length (c ∷ cs) - 1)
    eval_loop (c ∷ cs) eval_at (length (c ∷ cs) - 1) result

  -- `while d > 0 && p[d - 1] == F::zero() { d -= 1; }`
  unfoldable pub deg_loop : List ℕ → ℕ → Outcome ⊥ ℕ
  deg_loop p zero = ok 0
  deg_loop p (suc d) = do
    let rest = deg_loop p d
    x ← index p d
    if eq f x 0 then rest else ok (suc d)

  unfoldable pub poly_deg : List ℕ → Outcome ⊥ ℕ
  poly_deg p = do d ← deg_loop p (length p); ok (d - 1)

  -- `out[i + j] += p[i] * q[j];`
  unfoldable pub mul_term : List ℕ → List ℕ → ℕ → ℕ → List ℕ → Outcome ⊥ (List ℕ)
  mul_term p q i j out = do
    a ← index p i
    b ← index q j
    o ← index out (i + j)
    ok (set out (i + j) (add f.fp o (mul f.fp a b)))

  -- The output after the first `n` rounds of the inner loop.
  unfoldable pub mul_row : List ℕ → List ℕ → ℕ → ℕ → List ℕ → Outcome ⊥ (List ℕ)
  mul_row p q i zero out = ok out
  mul_row p q i (suc n) out = mul_row p q i n out >>= mul_term p q i n

  -- The output after the first `n` rounds of the outer loop.
  unfoldable pub mul_rows : List ℕ → List ℕ → ℕ → ℕ → List ℕ → Outcome ⊥ (List ℕ)
  mul_rows p q q_size zero out = ok out
  mul_rows p q q_size (suc n) out = mul_rows p q q_size n out >>= mul_row p q n q_size

  unfoldable pub poly_mul : List ℕ → List ℕ → Outcome ⊥ (List ℕ)
  poly_mul p q = do
    p_deg ← poly_deg p
    q_deg ← poly_deg q
    let p_size = p_deg + 1
    let q_size = q_deg + 1
    out ← mul_rows p q q_size p_size (replicate (p_size + q_size) 0)
    deg ← poly_deg out
    ok (take (deg + 1) out)

  -- `for i in start..end`, with the rounds that are left; `F::Integer::try_from(i).unwrap()` panics
  -- where the integer does not fit.
  unfoldable pub range_loop : ℕ → ℕ → ℕ → List ℕ → Outcome ⊥ (List ℕ)
  range_loop unit i zero p = ok p
  range_loop unit i (suc n) p = do
    x ← if ltb i (2 ^ f.int_bits) then ok (from_integer f i) else panicked
    p' ← poly_mul p (neg f.fp x ∷ unit ∷ [])
    range_loop unit (i + 1) n p'

  unfoldable pub poly_range_check : ℕ → ℕ → Outcome ⊥ (List ℕ)
  poly_range_check start end = do unit ← one f; range_loop unit start (end - start) (unit ∷ [])
