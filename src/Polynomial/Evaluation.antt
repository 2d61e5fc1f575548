-- ===== src/Polynomial/Evaluation.antt =====
-- `poly_eval` and `poly_deg` by the integers that the coefficients stand for.
use libprio_rs.Common.{
  ℕ, zero, suc, ◌+◌, ◌-◌, ◌*◌, ◌≤◌, ◌<◌, ◌≡◌, refl, ap, ◌∙◌, arith, List, [], ◌∷◌, map, length,
  drop, get_elem?, get_elem?-total, replicate, some, All, Bool-cases, inl, inr, ◌⊎◌, ◌==◌,
}
use libprio_rs.Outcome.{ok}
use libprio_rs.Fp.{add, mul, residue}
use libprio_rs.Fp.Element.{
  Represents, add-Represents, mul-Represents, residue-congruent, zero-Represents,
}
use libprio_rs.Field.{FieldType, index, eq}
use libprio_rs.Field.Codec.{IsFieldType}
use libprio_rs.Field.Arithmetic.{eq-words}
use libprio_rs.Polynomial.{eval_loop, poly_eval, deg_loop, poly_deg}
use mathlib.Core.Path.{subst}

-- The value at `a` of a polynomial over the integers.
abbrev pub value : List ℕ → ℕ → ℕ
value [] a = 0
value (c ∷ cs) a = c + a * value cs a

drop-entry : (xs : List ℕ) (i x : ℕ) → get_elem? xs i ≡ some x → drop i xs ≡ x ∷ drop (suc i) xs
drop-entry [] i x h = cc
drop-entry (y ∷ ys) zero x h = let e : y ≡ x = cc in ap (λ (t : ℕ). t ∷ ys) e
drop-entry (y ∷ ys) (suc i) x h = drop-entry ys i x h

abbrev zeros_of : ℕ → List ℕ
zeros_of n = replicate n 0

drop-zeros_of : (n m : ℕ) → n ≡ m → drop 1 (zeros_of n) ≡ zeros_of (m - 1)
drop-zeros_of zero m e = ap zeros_of {x = 0} {y = m - 1} (omega arith)
drop-zeros_of (suc n) m e = ap zeros_of {x = n} {y = m - 1} (omega arith)

drop-length : (xs : List ℕ) → drop (length xs) xs ≡ []
drop-length [] = refl
drop-length (x ∷ xs) = drop-length xs

entry-lt : (p : ℕ) (xs : List ℕ) (i x : ℕ) → All (λ y. y < p) xs → get_elem? xs i ≡ some x → x < p
entry-lt p [] i x h e = cc
entry-lt p (y ∷ ys) zero x (hy, h) e = let same : y ≡ x = cc in omega (arith, same)
entry-lt p (y ∷ ys) (suc i) x (hy, h) e = entry-lt p ys i x h e

module _ (f : FieldType) (ok_f : IsFieldType f) where
  open f use {fp}
  open fp use {p}

  -- Horner's rule: the loop puts the coefficients below `i` under those that `result` stands for.
  eval_loop_lem :
      (poly : List ℕ) (eval_at a i result : ℕ)
      → All (λ x. x < p) poly
      → Represents fp eval_at a
      → i ≤ length poly
      → Represents fp result (value (map (residue fp) (drop i poly)) a)
      → (r : ℕ) × (eval_loop f poly eval_at i result ≡ ok r)
        × Represents fp r (value (map (residue fp) poly) a)
  unfolding eval_loop
  eval_loop_lem poly eval_at a zero result h ra hi rr = (result, refl, rr)
  eval_loop_lem poly eval_at a (suc i) result h ra hi rr =
      let (x, e) = get_elem?-total poly i (omega arith) in
      let rx = residue-congruent fp ok_f.parameters x (entry-lt p poly i x h e) in
      let tail = value (map (residue fp) (drop (suc i) poly)) a in
      let product = mul-Represents fp ok_f.parameters result eval_at tail a rr ra in
      let sum = add-Represents fp ok_f.parameters _ x _ (residue fp x) product rx in
      let same : tail * a + residue fp x ≡ value (map (residue fp) (drop i poly)) a =
        rw (drop-entry poly i x e) (omega arith) in
      let (r, done, rep) =
        eval_loop_lem poly eval_at a i (add fp (mul fp result eval_at) x) h ra (omega arith)
          (subst (λ (t : ℕ). Represents fp (add fp (mul fp result eval_at) x) t) same sum) in
      (r, rw (e, index) done, rep)

  -- `poly_eval` returns on every slice of reduced coefficients, and the element returned stands for
  -- the polynomial's value at the integer that the argument stands for.
  pub poly_eval-value :
      (poly : List ℕ) (eval_at a : ℕ)
      → All (λ x. x < p) poly
      → Represents fp eval_at a
      → (r : ℕ) × (poly_eval f poly eval_at ≡ ok r)
        × Represents fp r (value (map (residue fp) poly) a)
  unfolding poly_eval
  poly_eval-value [] eval_at a h ra = (0, refl, zero-Represents fp ok_f.parameters)
  poly_eval-value (c ∷ cs) eval_at a h ra =
      let poly = c ∷ cs in
      let n = length poly - 1 in
      let (x, e) = get_elem?-total poly n (omega arith) in
      let rx = residue-congruent fp ok_f.parameters x (entry-lt p poly n x h e) in
      let last : drop n poly ≡ x ∷ [] =
        drop-entry poly n x e
        ∙ ap (λ (t : List ℕ). x ∷ t)
            (ap (λ (k : ℕ). drop k poly) {x = suc n} {y = length poly} (omega arith)
              ∙ drop-length poly) in
      let same : residue fp x ≡ value (map (residue fp) (drop n poly)) a = rw last (omega arith) in
      let (r, done, rep) =
        eval_loop_lem poly eval_at a n x h ra (omega arith)
          (subst (λ (t : ℕ). Represents fp x t) same rx) in
      (r, rw (e, index) done, rep)

  -- The loop of `poly_deg` passes over zeros from `d` down.
  deg_loop_lem :
      (poly : List ℕ) (d : ℕ)
      → All (λ x. x < p) poly
      → d ≤ length poly
      → drop d poly ≡ replicate (length poly - d) 0
      → (r : ℕ) × (deg_loop f poly d ≡ ok r)
        × (r ≤ d)
        × (drop r poly ≡ replicate (length poly - r) 0)
        × ((r ≡ 0) ⊎ ((d' x : ℕ) × (r ≡ suc d') × (get_elem? poly d' ≡ some x) × (0 < x)))
  unfolding deg_loop
  deg_loop_lem poly zero h hd zeros = (0, refl, omega arith, zeros, inl refl)
  deg_loop_lem poly (suc d) h hd zeros =
      let (x, e) = get_elem?-total poly d (omega arith) in
      let words : eq f x 0 ≡ (x == 0) =
        eq-words f ok_f x 0 (entry-lt p poly d x h e) ok_f.parameters.montgomery_form.p_pos in
      elim (Bool-cases (x == 0)) [
        | inl zero_entry ↦
            let x0 : x ≡ 0 = ground arith in
            let further : drop d poly ≡ replicate (length poly - d) 0 =
              drop-entry poly d x e
              ∙ rw (x0, zeros)
                  (ap (λ (k : ℕ). replicate k 0) {x = suc (length poly - suc d)} (omega arith)) in
            let (r, done, le, rest, top) = deg_loop_lem poly d h (omega arith) further in
            (r, rw (e, index, words, zero_entry) done, omega arith, rest, top)
        | inr entry ↦ (
          suc d,
          rw (e, index, words, entry) refl,
          omega arith,
          zeros,
          inr (d, x, refl, e, ground arith),
        )
      ]

  -- `poly_deg` returns on every slice of reduced coefficients, with the index of the last
  -- coefficient that is not 0, or 0 where all of them are; behind that index every one is 0.
  pub poly_deg-top :
      (poly : List ℕ)
      → All (λ x. x < p) poly
      → (d : ℕ) × (poly_deg f poly ≡ ok d)
        × (drop (suc d) poly ≡ replicate (length poly - suc d) 0)
        × ((d ≡ 0) ⊎ ((x : ℕ) × (get_elem? poly d ≡ some x) × (0 < x)))
  unfolding poly_deg
  poly_deg-top poly h =
      let (r, e, le, zeros, top) =
        deg_loop_lem poly (length poly) h (omega arith)
          (drop-length poly ∙ ap (λ (k : ℕ). replicate k 0) {x = 0} (omega arith)) in
      elim top [
        | inl none_left ↦
            let r0 : r - 1 ≡ 0 = omega arith in
            let all_zero : drop 0 poly ≡ replicate (length poly - 0) 0 = rw none_left at zeros in
            (
              0,
              rw e (ap ok r0),
              ap (drop 1) all_zero ∙ drop-zeros_of (length poly - 0) (length poly) (omega arith),
              inl refl,
            )
        | inr (d', x, r', entry, pos) ↦
            let r1 : r - 1 ≡ d' = omega arith in
            (
              d',
              rw e (ap ok r1),
              subst (λ (t : ℕ). drop t poly ≡ replicate (length poly - t) 0) r' zeros,
              inr (x, entry, pos),
            )
      ]
