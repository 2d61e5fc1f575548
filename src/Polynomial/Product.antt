-- ===== src/Polynomial/Product.antt =====
-- `poly_mul` of src/polynomial.rs by the integers that the coefficients stand for.
use libprio_rs.Common.{
  ℕ, zero, suc, ◌+◌, ◌-◌, ◌*◌, ◌%◌, ◌<◌, ◌≡◌, refl, sym, ap, ◌∙◌, arith, List, [], ◌∷◌, map, length,
  drop, take, get_elem?, replicate, length-replicate, some, All, All-take, inl, inr,
}
use libprio_rs.Common.Congruence.{Congruent, congr_add, congr_mul}
use libprio_rs.Outcome.{ok}
use libprio_rs.Fp.{residue}
use libprio_rs.Fp.Element.{Represents, residue-congruent, zero-Represents, residue-Represents}
use libprio_rs.Field.{FieldType}
use libprio_rs.Field.Codec.{IsFieldType}
use libprio_rs.Polynomial.{poly_deg, poly_mul}
use libprio_rs.Polynomial.Rows.{Stand, mul_rows_lem}
use libprio_rs.Polynomial.Evaluation.{value, poly_deg-top}
use native.Mathlib.Nat.{mod-mod, mod-eq_of_lt}

module _ (f : FieldType) (ok_f : IsFieldType f) where
  open f use {fp}
  open fp use {p}

  Stand-value :
      (xs ns : List ℕ) (a : ℕ)
      → Stand fp xs ns
      → Congruent p (value (map (residue fp) xs) a) (value ns a)
  Stand-value [] [] a s = refl
  Stand-value [] (n ∷ ns) a s = elim s [ ]
  Stand-value (x ∷ xs) [] a s = elim s [ ]
  Stand-value (x ∷ xs) (n ∷ ns) a (r, s) =
      congr_add p _ _ _ _ (congr_residue x n r) (congr_mul p a a _ _ refl (Stand-value xs ns a s))
    where
      congr_residue : (x' n' : ℕ) → Represents fp x' n' → Congruent p (residue fp x') n'
      congr_residue x' n' r' = rw (residue-Represents fp ok_f.parameters x' n' r') (mod-mod n' p)

  residue-Stand : (xs : List ℕ) → All (λ x. x < p) xs → Stand fp xs (map (residue fp) xs)
  residue-Stand [] h = tt
  residue-Stand (x ∷ xs) (hx, h) = (residue-congruent fp ok_f.parameters x hx, residue-Stand xs h)

  Stand-reduced : (xs ns : List ℕ) → Stand fp xs ns → All (λ x. x < p) xs
  Stand-reduced [] [] s = tt
  Stand-reduced [] (n ∷ ns) s = elim s [ ]
  Stand-reduced (x ∷ xs) [] s = elim s [ ]
  Stand-reduced (x ∷ xs) (n ∷ ns) (r, s) = (r.reduced, Stand-reduced xs ns s)

  zeros-Stand : (n : ℕ) → Stand fp (replicate n 0) (replicate n 0)
  zeros-Stand zero = tt
  zeros-Stand (suc n) = (zero-Represents fp ok_f.parameters, zeros-Stand n)

  zeros-value : (n a : ℕ) → value (replicate n 0) a ≡ 0
  zeros-value zero a = refl
  zeros-value (suc n) a = rw (zeros-value n a) (omega arith)

  residue_zero : residue fp 0 ≡ 0
  residue_zero =
      residue-Represents fp ok_f.parameters 0 0 (zero-Represents fp ok_f.parameters)
      ∙ mod-eq_of_lt ok_f.parameters.montgomery_form.p_pos

  residue_zeros : (n a : ℕ) → value (map (residue fp) (replicate n 0)) a ≡ 0
  residue_zeros zero a = refl
  residue_zeros (suc n) a = rw (residue_zero, residue_zeros n a) (omega arith)

  -- Zeros behind the first k coefficients may go.
  value-cut :
      (xs : List ℕ) (k n a : ℕ)
      → drop k xs ≡ replicate n 0
      → value (map (residue fp) (take k xs)) a ≡ value (map (residue fp) xs) a
  value-cut xs zero n a h =
      sym (ap (λ (t : List ℕ). value (map (residue fp) t) a) h ∙ residue_zeros n a)
  value-cut [] (suc k) n a h = refl
  value-cut (x ∷ xs) (suc k) n a h = ap (λ (t : ℕ). residue fp x + a * t) (value-cut xs k n a h)

  map-take : (xs : List ℕ) (k : ℕ) → take k (map (residue fp) xs) ≡ map (residue fp) (take k xs)
  map-take xs zero = refl
  map-take [] (suc k) = refl
  map-take (x ∷ xs) (suc k) = ap (λ (t : List ℕ). residue fp x ∷ t) (map-take xs k)

  get_elem-lt : (xs : List ℕ) (k x : ℕ) → get_elem? xs k ≡ some x → k < length xs
  get_elem-lt [] k x e = cc
  get_elem-lt (y ∷ xs) zero x e = omega arith
  get_elem-lt (y ∷ xs) (suc k) x e = omega (arith, get_elem-lt xs k x e)

  -- The degree of a slice that is not empty, and the value without the zeros behind it.
  poly_deg_cut :
      (poly : List ℕ)
      → All (λ x. x < p) poly
      → 0 < length poly
      → (d : ℕ) × (poly_deg f poly ≡ ok d)
        × (d < length poly)
        × ((a : ℕ)
            → value (map (residue fp) (take (d + 1) poly)) a ≡ value (map (residue fp) poly) a)
  poly_deg_cut poly h pos =
      let (d, e, zeros, top) = poly_deg-top f ok_f poly h in
      let low : d < length poly = elim top [
        | inl d0 ↦ omega (arith, d0)
        | inr (x, ex, hx) ↦ get_elem-lt poly d x ex
      ] in
      (
        d,
        e,
        low,
        λ a.
            value-cut poly (d + 1) (length poly - suc d) a
              (ap (λ (k : ℕ). drop k poly) {x = d + 1} {y = suc d} (omega arith) ∙ zeros),
      )

  -- `poly_mul` returns on slices of reduced coefficients that are not empty, with reduced
  -- coefficients, and the value of the result at every integer is the product of the values
  -- modulo p.
  pub poly_mul-value :
      (ps qs : List ℕ)
      → All (λ x. x < p) ps
      → All (λ x. x < p) qs
      → 0 < length ps
      → 0 < length qs
      → (r : List ℕ) × (poly_mul f ps qs ≡ ok r)
        × All (λ x. x < p) r
        × ((a : ℕ)
            → Congruent p
                (value (map (residue fp) r) a)
                (value (map (residue fp) ps) a * value (map (residue fp) qs) a))
  unfolding poly_mul
  poly_mul-value ps qs hp hq pos_p pos_q =
      let (d, e, low, v) = poly_deg_cut ps hp pos_p in
      let (d', e', low', v') = poly_deg_cut qs hq pos_q in
      let n = (d + 1) + (d' + 1) in
      let zeros : List ℕ = replicate n 0 in
      let size : length zeros ≡ n = length-replicate n 0 in
      let (out, ns, made, s, len, total) =
        mul_rows_lem f ok_f ps (map (residue fp) ps) qs (map (residue fp) qs) zeros zeros (d' + 1)
          (d + 1) (residue-Stand ps hp) (residue-Stand qs hq) (zeros-Stand n) (omega arith)
          (omega arith) (omega (arith, size)) in
      let reduced = Stand-reduced out ns s in
      let (d'', e'', low'', v'') = poly_deg_cut out reduced (omega (arith, len, size)) in
      (
        take (d'' + 1) out,
        rw (e, e', made, e'') refl,
        All-take (λ x. x < p) (d'' + 1) out reduced,
        λ a.
            ap (λ (t : ℕ). t % p) (v'' a)
            ∙ Stand-value out ns a s
            ∙ ap (λ (t : ℕ). t % p)
                (total a
                  ∙ rw (map-take ps (d + 1), map-take qs (d' + 1), v a, v' a, zeros-value n a)
                      (omega arith)),
      )
