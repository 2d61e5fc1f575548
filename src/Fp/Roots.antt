-- ===== src/Fp/Roots.antt =====
-- The tables of roots of unity in src/fp.rs.
use libprio_rs.Common.{
  ℕ, zero, suc, ◌+◌, ◌-◌, ◌*◌, ◌%◌, ◌^◌, ◌≤◌, ◌<◌, ◌≡◌, refl, sym, ap, ◌∙◌, arith, Bool, true, ◌&&◌,
  ltb, ltb→lt, &&-split, ◌==◌, List, [], ◌∷◌, get_elem?, some,
}
use libprio_rs.Common.Congruence.{Congruent, congr_mul}
use libprio_rs.Fp.{FieldParameters, mul, montgomery, residue, pow}
use libprio_rs.Fp.Element.{
  IsParameters, Represents, mul-Represents, residue-congruent, cancel_base, montgomery_reduced,
}
use libprio_rs.Fp.Power.{pow-add, pow-Represents}
use libprio_rs.Fp.Params.{fp32, fp64, fp96, fp128}
use mathlib.Core.Path.{subst}
use native.Mathlib.Nat.{pow-suc, pow-zero, pow-le-pow_right}

-- Each entry is reduced, and is the square of the next.
abbrev pub is_chain : FieldParameters → List ℕ → Bool
is_chain fp [] = true
is_chain fp (x ∷ []) = ltb x fp.p
is_chain fp (x ∷ y ∷ xs) = (ltb x fp.p && (mul fp y y == x)) && is_chain fp (y ∷ xs)

-- The table is such a chain, from 1 and -1 on.
pub record IsRoots (fp : FieldParameters) : Type 0 where
  pub second : ℕ
  pub others : List ℕ
  pub p_ge : 2 ≤ fp.p
  pub table : fp.roots ≡ montgomery fp 1 ∷ second ∷ others
  pub chain : is_chain fp fp.roots ≡ true
  pub minus_one : residue fp second ≡ fp.p - 1

pub fp32-IsRoots : IsRoots fp32
unfolding mul montgomery residue
fp32-IsRoots = record {
  second = 1729828257;
  others = _;
  p_ge = omega arith;
  table = refl;
  chain = refl;
  minus_one = refl;
}

pub fp64-IsRoots : IsRoots fp64
unfolding mul montgomery residue
fp64-IsRoots = record {
  second = 4294967296;
  others = _;
  p_ge = omega arith;
  table = refl;
  chain = refl;
  minus_one = refl;
}

pub fp96-IsRoots : IsRoots fp96
unfolding mul montgomery residue
fp96-IsRoots = record {
  second = 79218020088544242464750306022;
  others = _;
  p_ge = omega arith;
  table = refl;
  chain = refl;
  minus_one = refl;
}

pub fp128-IsRoots : IsRoots fp128
unfolding mul montgomery residue
fp128-IsRoots = record {
  second = 340282366920938462430356939304033320962;
  others = _;
  p_ge = omega arith;
  table = refl;
  chain = refl;
  minus_one = refl;
}

module _ (fp : FieldParameters) (ok : IsParameters fp) where
  open fp use {p}

  -- The integers that one element stands for are congruent.
  represented : (x a b : ℕ) → Represents fp x a → Represents fp x b → Congruent p a b
  represented x a b r s = cancel_base fp ok a b (sym r.congruent ∙ s.congruent)

  chain_split :
      (x y : ℕ) (xs : List ℕ)
      → is_chain fp (x ∷ y ∷ xs) ≡ true
      → (x < p) × (mul fp y y ≡ x) × (is_chain fp (y ∷ xs) ≡ true)
  chain_split x y xs h =
      let (head, h') = &&-split (ltb x p && (mul fp y y == x)) (is_chain fp (y ∷ xs)) h in
      let (below, square) = &&-split (ltb x p) (mul fp y y == x) head in
      (ltb→lt x p below, ground arith, h')

  chain-lt : (x : ℕ) (xs : List ℕ) → is_chain fp (x ∷ xs) ≡ true → x < p
  chain-lt x [] h = ltb→lt x p h
  chain-lt x (y ∷ xs) h = (chain_split x y xs h).0

  entry-lt :
      (l x x₀ : ℕ) (xs : List ℕ)
      → is_chain fp (x₀ ∷ xs) ≡ true
      → get_elem? (x₀ ∷ xs) l ≡ some x
      → x < p
  entry-lt zero x x₀ xs h e = let same : x₀ ≡ x = cc in omega (arith, same, chain-lt x₀ xs h)
  entry-lt (suc l) x x₀ [] h e = cc
  entry-lt (suc l) x x₀ (y ∷ xs) h e = entry-lt l x y xs (chain_split x₀ y xs h).2 e

  -- The entry `l` places behind the first is its root of order 2 ^ l.
  chain_lem :
      (xs : List ℕ) (l x₀ x a₀ a : ℕ)
      → is_chain fp (x₀ ∷ xs) ≡ true
      → Represents fp x₀ a₀
      → get_elem? (x₀ ∷ xs) l ≡ some x
      → Represents fp x a
      → Congruent p (a ^ (2 ^ l)) a₀
  chain_lem xs zero x₀ x a₀ a h r e s =
      let same : x₀ ≡ x = cc in
      ap (λ (t : ℕ). t % p) {x = a ^ 1} {y = a} (rw (pow-suc a 0, pow-zero) (omega arith))
      ∙ represented x a a₀ s (subst (λ (t : ℕ). Represents fp t a₀) same r)
  chain_lem [] (suc l) x₀ x a₀ a h r e s = cc
  chain_lem (y ∷ xs) (suc l) x₀ x a₀ a h r e s =
      let (_, square, h') = chain_split x₀ y xs h in
      let b = residue fp y in
      let ry : Represents fp y b = residue-congruent fp ok y (chain-lt y xs h') in
      let below : Congruent p (a ^ (2 ^ l)) b = chain_lem xs l y x b a h' ry e s in
      let rsquare = mul-Represents fp ok y y b b ry ry in
      let squared : Congruent p (b * b) a₀ =
        cancel_base fp ok _ _
          (sym rsquare.congruent ∙ ap (λ (t : ℕ). t % p) square ∙ r.congruent) in
      ap (λ (t : ℕ). a ^ t % p) {x = 2 ^ suc l} {y = 2 ^ l + 2 ^ l} (rw pow-suc (omega arith))
      ∙ rw pow-add (congr_mul p _ b _ b below below ∙ squared)

module _ (fp : FieldParameters) (ok : IsParameters fp) (r : IsRoots fp) where
  open fp use {p}

  one-Represents : Represents fp (montgomery fp 1) 1
  one-Represents = montgomery_reduced fp ok 1 r.p_ge

  -- An entry to the power of two of its index is 1, and to half of that power it is -1.
  pub root_order :
      (l x : ℕ)
      → l < 128
      → get_elem? fp.roots l ≡ some x
      → Represents fp (pow fp x (2 ^ l)) 1
        × ((k : ℕ) → l ≡ suc k → Represents fp (pow fp x (2 ^ k)) (p - 1))
  root_order l x hl e =
      let h : is_chain fp (montgomery fp 1 ∷ r.second ∷ r.others) ≡ true =
        subst (λ (t : List ℕ). is_chain fp t ≡ true) r.table r.chain in
      let e' : get_elem? (montgomery fp 1 ∷ r.second ∷ r.others) l ≡ some x =
        subst (λ (t : List ℕ). get_elem? t l ≡ some x) r.table e in
      let (_, _, h') = chain_split fp ok _ _ _ h in
      let second_lt = chain-lt fp ok r.second r.others h' in
      let rx = residue-congruent fp ok x (entry-lt fp ok l x _ (r.second ∷ r.others) h e') in
      let power : (i : ℕ) → i < 128 → Represents fp (pow fp x (2 ^ i)) (residue fp x ^ (2 ^ i)) =
        λ i hi.
          pow-Represents fp ok x (residue fp x) (2 ^ i)
            (omega (arith, pow-le-pow_right {n = 2} (omega arith) {i = i} {j = 127} (omega arith)))
            rx in
      (
        moved _ _ 1 (power l hl)
            (chain_lem fp ok (r.second ∷ r.others) l _ x 1 _ h one-Represents e' rx),
        λ k q.
            let e'' : get_elem? (r.second ∷ r.others) k ≡ some x =
              subst (λ (t : ℕ). get_elem? (montgomery fp 1 ∷ r.second ∷ r.others) t ≡ some x) q
                e' in
            let minus =
              subst (λ (t : ℕ). Represents fp r.second t) r.minus_one
                (residue-congruent fp ok r.second second_lt) in
            moved _ _ (p - 1) (power k (omega arith))
              (chain_lem fp ok r.others k _ x (p - 1) _ h' minus e'' rx),
      )
    where
      moved : (y a b : ℕ) → Represents fp y a → Congruent p a b → Represents fp y b
      moved y a b ry c = record {
        reduced = ry.reduced;
        congruent = ry.congruent ∙ congr_mul p a b (2 ^ 128) (2 ^ 128) c refl;
      }
