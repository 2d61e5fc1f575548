-- ===== src/Poplar1/Ordered.antt =====
-- The order of `IdpfInput` in src/vdaf/poplar1.rs, and the lists that stand for a `BTreeSet`.
use Prim.Native.Nat.{Ordering}
use libprio_rs.Common.{
  ℕ, ◌<◌, ◌≡◌, refl, sym, ap, ◌∙◌, List, [], ◌∷◌, ◌++◌, arith, All, some, ==_self, append_assoc,
  append-nil,
}
use mathlib.Core.Path.{subst}
use libprio_rs.Outcome.{ok}
use libprio_rs.Poplar1.{IdpfInput}
use libprio_rs.Poplar1.Input.{cmp, insert, from_iter}
use libprio_rs.Poplar1.Prepare.{get_level, level_loop, level_or_empty}

-- The elements are in the order of `cmp`, and none is there twice.
abbrev pub IsOrdered : List IdpfInput → Type 0
IsOrdered [] = Unit {0}
IsOrdered (x ∷ xs) = All (λ y. cmp x y ≡ Ordering.lt) xs × IsOrdered xs

pub cmp_same_level :
    (x y : IdpfInput) → x.level ≡ y.level → cmp x y ≡ Ordering.lt → x.index < y.index
unfolding cmp
cmp_same_level x y e h = ground arith

pub cmp_flip : (x y : IdpfInput) → cmp x y ≡ Ordering.lt → cmp y x ≡ Ordering.gt
unfolding cmp
cmp_flip x y h = ground arith

cmp_flip-gt : (x y : IdpfInput) → cmp x y ≡ Ordering.gt → cmp y x ≡ Ordering.lt
unfolding cmp
cmp_flip-gt x y h = ground arith

cmp_trans :
    (x y z : IdpfInput) → cmp x y ≡ Ordering.lt → cmp y z ≡ Ordering.lt → cmp x z ≡ Ordering.lt
unfolding cmp
cmp_trans x y z h k = ground arith

-- The inputs in front of an element of an ordered list are below it.
pub below_middle :
    (inputs : List IdpfInput) (x : IdpfInput) (xs : List IdpfInput)
    → IsOrdered (inputs ++ (x ∷ xs))
    → All (λ y. cmp y x ≡ Ordering.lt) inputs
below_middle [] x xs h = tt
below_middle (y ∷ inputs) x xs (above, h) = (here inputs above, below_middle inputs x xs h)
  where
    here :
        (zs : List IdpfInput)
        → All (λ z. cmp y z ≡ Ordering.lt) (zs ++ (x ∷ xs))
        → cmp y x ≡ Ordering.lt
    here [] (e, k) = e
    here (z ∷ zs) (e, k) = here zs k

insert_last :
    (x : IdpfInput) (inputs : List IdpfInput)
    → All (λ y. cmp y x ≡ Ordering.lt) inputs
    → insert x inputs ≡ inputs ++ (x ∷ [])
unfolding insert
insert_last x [] h = refl
insert_last x (y ∷ inputs) (e, h) =
    rw (insert, cmp_flip y x e) (ap (λ (t : List IdpfInput). y ∷ t) (insert_last x inputs h))

from_iter_behind :
    (inputs xs : List IdpfInput) → IsOrdered (inputs ++ xs) → from_iter inputs xs ≡ inputs ++ xs
unfolding from_iter
from_iter_behind inputs [] h = sym (append-nil inputs)
from_iter_behind inputs (x ∷ xs) h =
    let moved : (inputs ++ (x ∷ [])) ++ xs ≡ inputs ++ (x ∷ xs) = append_assoc inputs (x ∷ []) xs in
    rw (insert_last x inputs (below_middle inputs x xs h))
      (from_iter_behind (inputs ++ (x ∷ [])) xs (subst IsOrdered (sym moved) h) ∙ moved)

-- A list in its order is the set of its elements.
pub from_iter-ordered : (xs : List IdpfInput) → IsOrdered xs → from_iter [] xs ≡ xs
from_iter-ordered xs h = from_iter_behind [] xs h

insert-All :
    (P : IdpfInput → Type 0) (x : IdpfInput) (ys : List IdpfInput)
    → P x
    → All P ys
    → All P (insert x ys)
unfolding insert
insert-All P x [] hx h = (hx, tt)
insert-All P x (y ∷ ys) hx (hy, h) = by_order (cmp x y) (insert-All P x ys hx h)
  where
    by_order :
        (o : Ordering)
        → All P (insert x ys)
        → All P (elim o [
          | Ordering.lt ↦ x ∷ y ∷ ys
          | Ordering.eq ↦ y ∷ ys
          | Ordering.gt ↦ y ∷ insert x ys
        ])
    by_order Ordering.lt deeper = (hx, (hy, h))
    by_order Ordering.eq deeper = (hy, h)
    by_order Ordering.gt deeper = (hy, deeper)

all_above :
    (x y : IdpfInput) (ys : List IdpfInput)
    → cmp x y ≡ Ordering.lt
    → All (λ z. cmp y z ≡ Ordering.lt) ys
    → All (λ z. cmp x z ≡ Ordering.lt) ys
all_above x y [] e h = tt
all_above x y (z ∷ ys) e (hz, h) = (cmp_trans x y z e hz, all_above x y ys e h)

insert-IsOrdered : (x : IdpfInput) (ys : List IdpfInput) → IsOrdered ys → IsOrdered (insert x ys)
unfolding insert
insert-IsOrdered x [] h = (tt, tt)
insert-IsOrdered x (y ∷ ys) (above, h) = by_order (cmp x y) refl (insert-IsOrdered x ys h)
  where
    by_order :
        (o : Ordering)
        → cmp x y ≡ o
        → IsOrdered (insert x ys)
        → IsOrdered (elim o [
          | Ordering.lt ↦ x ∷ y ∷ ys
          | Ordering.eq ↦ y ∷ ys
          | Ordering.gt ↦ y ∷ insert x ys
        ])
    by_order Ordering.lt e deeper = ((e, all_above x y ys e above), (above, h))
    by_order Ordering.eq e deeper = (above, h)
    by_order Ordering.gt e deeper =
        (insert-All (λ z. cmp y z ≡ Ordering.lt) x ys (cmp_flip-gt x y e) above, deeper)

-- Whatever is inserted, the set is in its order.
pub from_iter-IsOrdered :
    (inputs xs : List IdpfInput) → IsOrdered inputs → IsOrdered (from_iter inputs xs)
unfolding from_iter
from_iter-IsOrdered inputs [] h = h
from_iter-IsOrdered inputs (x ∷ xs) h =
    from_iter-IsOrdered (insert x inputs) xs (insert-IsOrdered x inputs h)

level_loop_lem :
    (level : ℕ) (nodes : List IdpfInput)
    → All (λ x. x.level ≡ level) nodes
    → level_loop (some level) nodes ≡ ok (some level)
unfolding level_loop
level_loop_lem level [] h = refl
level_loop_lem level (node ∷ nodes) (e, h) = rw (e, ==_self level) (level_loop_lem level nodes h)

pub get_level_lem :
    (level : ℕ) (node : IdpfInput) (nodes : List IdpfInput)
    → All (λ x. x.level ≡ level) (node ∷ nodes)
    → get_level (node ∷ nodes) ≡ ok level
unfolding get_level level_loop level_or_empty
get_level_lem level node nodes (e, h) = rw (e, level_loop_lem level nodes h) refl
