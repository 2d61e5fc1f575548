-- ===== src/Polynomial/Rows.antt =====
-- The loops of `poly_mul` of src/polynomial.rs by the integers that the coefficients stand for.
use libprio_rs.Common.{
  ℕ, zero, suc, ◌+◌, ◌*◌, ◌^◌, ◌≤◌, ◌<◌, ◌≡◌, refl, ◌∙◌, arith, List, [], ◌∷◌, length, take, set,
  get_elem?, get_elem?-total, some,
}
use libprio_rs.Field.Digits.{length-set}
use libprio_rs.Outcome.{ok}
use libprio_rs.Fp.{FieldParameters, add, mul}
use libprio_rs.Fp.Element.{Represents, add-Represents, mul-Represents}
use libprio_rs.Fp.Power.{pow-add}
use libprio_rs.Field.{FieldType, index}
use libprio_rs.Field.Codec.{IsFieldType}
use libprio_rs.Polynomial.{mul_term, mul_row, mul_rows}
use libprio_rs.Polynomial.Evaluation.{value}
use mathlib.Core.Path.{subst}
use native.Mathlib.Nat.{pow-suc, pow-zero}

value-set :
    (ns : List ℕ) (k n t a : ℕ)
    → get_elem? ns k ≡ some n
    → value (set ns k (n + t)) a ≡ value ns a + t * a ^ k
value-set [] k n t a h = cc
value-set (m ∷ ns) zero n t a h = let e : m ≡ n = cc in rw (e, pow-zero a) (omega arith)
value-set (m ∷ ns) (suc k) n t a h =
    let rest = value-set ns k n t a h in rw (rest, pow-suc a k) (omega arith)

value-take :
    (ns : List ℕ) (k n a : ℕ)
    → get_elem? ns k ≡ some n
    → value (take (suc k) ns) a ≡ value (take k ns) a + n * a ^ k
value-take [] k n a h = cc
value-take (m ∷ ns) zero n a h = let e : m ≡ n = cc in rw (e, pow-zero a) (omega arith)
value-take (m ∷ ns) (suc k) n a h =
    let rest = value-take ns k n a h in rw (rest, pow-suc a k) (omega arith)

-- The words stand for the integers.
abbrev pub Stand : FieldParameters → List ℕ → List ℕ → Type 0
Stand fp [] [] = Unit {0}
Stand fp (x ∷ xs) (n ∷ ns) = Represents fp x n × Stand fp xs ns
Stand fp _ _ = ⊥

Stand-get_elem :
    (fp : FieldParameters) (xs ns : List ℕ) (k x : ℕ)
    → Stand fp xs ns
    → get_elem? xs k ≡ some x
    → (n : ℕ) × (get_elem? ns k ≡ some n) × Represents fp x n
Stand-get_elem fp [] ns k x s e = cc
Stand-get_elem fp (y ∷ xs) (n ∷ ns) zero x (r, s) e =
    let same : y ≡ x = cc in (n, refl, subst (λ (t : ℕ). Represents fp t n) same r)
Stand-get_elem fp (y ∷ xs) (n ∷ ns) (suc k) x (r, s) e = Stand-get_elem fp xs ns k x s e
Stand-get_elem fp (y ∷ xs) [] k x s e = elim s [ ]

Stand-set :
    (fp : FieldParameters) (xs ns : List ℕ) (k x n : ℕ)
    → Stand fp xs ns
    → Represents fp x n
    → Stand fp (set xs k x) (set ns k n)
Stand-set fp [] [] k x n s r = tt
Stand-set fp (y ∷ xs) (m ∷ ns) zero x n (q, s) r = (r, s)
Stand-set fp (y ∷ xs) (m ∷ ns) (suc k) x n (q, s) r = (q, Stand-set fp xs ns k x n s r)
Stand-set fp [] (m ∷ ns) k x n s r = elim s [ ]
Stand-set fp (y ∷ xs) [] k x n s r = elim s [ ]

module _ (f : FieldType) (ok_f : IsFieldType f) where
  open f use {fp}
  open fp use {p}

  -- A round adds a term.
  mul_term_lem :
      (ps qs out ns : List ℕ) (i j x y m n : ℕ)
      → get_elem? ps i ≡ some x
      → get_elem? qs j ≡ some y
      → Represents fp x m
      → Represents fp y n
      → Stand fp out ns
      → i + j < length out
      → (r rs : List ℕ) × (mul_term f ps qs i j out ≡ ok r)
        × Stand fp r rs
        × (length r ≡ length out)
        × ((a : ℕ) → value rs a ≡ value ns a + m * n * a ^ (i + j))
  unfolding mul_term
  mul_term_lem ps qs out ns i j x y m n ex ey rx ry s hi =
      let (o, eo) = get_elem?-total out (i + j) hi in
      let (c, ec, ro) = Stand-get_elem fp out ns (i + j) o s eo in
      let product = mul-Represents fp ok_f.parameters x y m n rx ry in
      let sum = add-Represents fp ok_f.parameters o _ c (m * n) ro product in
      (
        set out (i + j) (add fp o (mul fp x y)),
        set ns (i + j) (c + m * n),
        rw (ex, ey, eo, index) refl,
        Stand-set fp out ns (i + j) _ _ s sum,
        length-set out (i + j) _,
        λ a. value-set ns (i + j) c (m * n) a ec,
      )

  mul_row_lem :
      (ps qs bs out ns : List ℕ) (i x m k : ℕ)
      → get_elem? ps i ≡ some x
      → Represents fp x m
      → Stand fp qs bs
      → Stand fp out ns
      → k ≤ length qs
      → i + k ≤ length out
      → (r rs : List ℕ) × (mul_row f ps qs i k out ≡ ok r)
        × Stand fp r rs
        × (length r ≡ length out)
        × ((a : ℕ) → value rs a ≡ value ns a + m * a ^ i * value (take k bs) a)
  unfolding mul_row
  mul_row_lem ps qs bs out ns i x m zero ex rx sq s hk hi =
      (out, ns, refl, s, refl, λ a. omega arith)
  mul_row_lem ps qs bs out ns i x m (suc k) ex rx sq s hk hi =
      let (r, rs, e, s', len, v) =
        mul_row_lem ps qs bs out ns i x m k ex rx sq s (omega arith) (omega arith) in
      let (y, ey) = get_elem?-total qs k (omega arith) in
      let (n, en, ry) = Stand-get_elem fp qs bs k y sq ey in
      let (r', rs', e', s'', len', v') =
        mul_term_lem ps qs r rs i k x y m n ex ey rx ry s' (omega (arith, len)) in
      (
        r',
        rs',
        rw e e',
        s'',
        len' ∙ len,
        λ a. v' a ∙ rw (v a, value-take bs k n a en, pow-add a i k) (omega arith),
      )

  pub mul_rows_lem :
      (ps ms qs bs out ns : List ℕ) (q_size k : ℕ)
      → Stand fp ps ms
      → Stand fp qs bs
      → Stand fp out ns
      → k ≤ length ps
      → q_size ≤ length qs
      → k + q_size ≤ length out
      → (r rs : List ℕ) × (mul_rows f ps qs q_size k out ≡ ok r)
        × Stand fp r rs
        × (length r ≡ length out)
        × ((a : ℕ) → value rs a ≡ value ns a + value (take k ms) a * value (take q_size bs) a)
  unfolding mul_rows
  mul_rows_lem ps ms qs bs out ns q_size zero sp sq s hk hq ho =
      (out, ns, refl, s, refl, λ a. omega arith)
  mul_rows_lem ps ms qs bs out ns q_size (suc k) sp sq s hk hq ho =
      let (r, rs, e, s', len, v) =
        mul_rows_lem ps ms qs bs out ns q_size k sp sq s (omega arith) hq (omega arith) in
      let (x, ex) = get_elem?-total ps k (omega arith) in
      let (m, em, rx) = Stand-get_elem fp ps ms k x sp ex in
      let (r', rs', e', s'', len', v') =
        mul_row_lem ps qs bs r rs k x m q_size ex rx sq s' hq (omega (arith, len)) in
      (
        r',
        rs',
        rw e e',
        s'',
        len' ∙ len,
        λ a. v' a ∙ rw (v a, value-take ms k m a em) (omega arith),
      )
