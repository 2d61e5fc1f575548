-- ===== src/Common/Xor.antt =====
-- `^` on words and on arrays of bytes.
use Prim.Native.Nat.{ℕ, zero, suc, ◌+◌, ◌*◌, ◌/◌, ◌%◌, ◌≤◌, ◌<◌, bit_xor, bit_xor-bitwise, differ}
use mathlib.Core.Path.{◌≡◌, refl, ap, ap₂}
use mathlib.Core.List.{List, [], ◌∷◌}
use native.Mathlib.Omega.{arith}
use libprio_rs.Common.Bits.{lowest_digit}
use libprio_rs.Common.Lists.{length}

differ-bits : (x y : ℕ) → x < 2 → y < 2 → differ x y ≡ (x + y) % 2
differ-bits zero y hx hy = omega arith
differ-bits (suc zero) zero hx hy = refl
differ-bits (suc zero) (suc zero) hx hy = refl
differ-bits (suc zero) (suc (suc y)) hx hy = absurd (omega arith)
differ-bits (suc (suc x)) y hx hy = absurd (omega arith)

bit_xor_digit : (x y : ℕ) → bit_xor x y ≡ bit_xor (x / 2) (y / 2) * 2 + (x + y) % 2
bit_xor_digit zero y = simp bit_xor-bitwise (omega arith)
bit_xor_digit (suc x) y =
    let e = lowest_digit (λ t. t) differ x y in
    let d = differ-bits (suc x % 2) (y % 2) (omega arith) (omega arith) in
    simp bit_xor-bitwise (omega arith)

halves : (x y : ℕ) → (bit_xor x y / 2 ≡ bit_xor (x / 2) (y / 2)) × (bit_xor x y % 2 ≡ (x + y) % 2)
halves x y = let e = bit_xor_digit x y in (omega arith, omega arith)

self_within : (n x : ℕ) → x ≤ n → bit_xor x x ≡ 0
self_within zero x h = ap (λ (t : ℕ). bit_xor t t) {x = x} {y = 0} (omega arith)
self_within (suc n) x h = omega (arith, bit_xor_digit x x, self_within n (x / 2) (omega arith))

-- A number and itself.
pub bit_xor_self : (x : ℕ) → bit_xor x x ≡ 0
bit_xor_self x = self_within x x (omega arith)

swap_within :
    (n x y z : ℕ) → x ≤ n → y ≤ n → z ≤ n → bit_xor (bit_xor x y) z ≡ bit_xor (bit_xor x z) y
swap_within zero x y z hx hy hz =
    let x0 : x ≡ 0 = omega arith in
    let y0 : y ≡ 0 = omega arith in let z0 : z ≡ 0 = omega arith in rw (x0, y0, z0) refl
swap_within (suc n) x y z hx hy hz =
    let (a, a') = halves x y in
    let (b, b') = halves x z in
    let left = bit_xor_digit (bit_xor x y) z in
    let right = bit_xor_digit (bit_xor x z) y in
    let ih = swap_within n (x / 2) (y / 2) (z / 2) (omega arith) (omega arith) (omega arith) in
    omega (arith, ap (λ (t : ℕ). bit_xor t (z / 2)) a, ap (λ (t : ℕ). bit_xor t (y / 2)) b)

pub bit_xor_swap : (x y z : ℕ) → bit_xor (bit_xor x y) z ≡ bit_xor (bit_xor x z) y
bit_xor_swap x y z = swap_within (x + y + z) x y z (omega arith) (omega arith) (omega arith)

cancel_within : (n x y : ℕ) → x ≤ n → y ≤ n → bit_xor (bit_xor x y) x ≡ y
cancel_within zero x y hx hy =
    let x0 : x ≡ 0 = omega arith in let y0 : y ≡ 0 = omega arith in rw (x0, y0) refl
cancel_within (suc n) x y hx hy =
    let (a, a') = halves x y in
    let left = bit_xor_digit (bit_xor x y) x in
    omega (
      arith,
      ap (λ (t : ℕ). bit_xor t (x / 2)) a,
      cancel_within n (x / 2) (y / 2) (omega arith) (omega arith),
    )

pub bit_xor_cancel : (x y : ℕ) → bit_xor (bit_xor x y) x ≡ y
bit_xor_cancel x y = cancel_within (x + y) x y (omega arith) (omega arith)

-- At each place of two arrays of one length.
abbrev pub xor_each : List ℕ → List ℕ → List ℕ
xor_each [] ys = []
xor_each (x ∷ xs) [] = x ∷ xs
xor_each (x ∷ xs) (y ∷ ys) = bit_xor x y ∷ xor_each xs ys

pub length-xor_each : (xs ys : List ℕ) → length (xor_each xs ys) ≡ length xs
length-xor_each [] ys = refl
length-xor_each (x ∷ xs) [] = refl
length-xor_each (x ∷ xs) (y ∷ ys) = ap suc (length-xor_each xs ys)

pub xor_each_swap :
    (xs ys zs : List ℕ)
    → length xs ≡ length ys
    → length xs ≡ length zs
    → xor_each (xor_each xs ys) zs ≡ xor_each (xor_each xs zs) ys
xor_each_swap [] ys zs h k = refl
xor_each_swap (x ∷ xs) [] zs h k = absurd (omega arith)
xor_each_swap (x ∷ xs) (y ∷ ys) [] h k = absurd (omega arith)
xor_each_swap (x ∷ xs) (y ∷ ys) (z ∷ zs) h k =
    ap₂ (λ (t : ℕ) (u : List ℕ). t ∷ u) (bit_xor_swap x y z)
      (xor_each_swap xs ys zs (omega arith) (omega arith))

pub xor_each_cancel : (xs ys : List ℕ) → length xs ≡ length ys → xor_each (xor_each xs ys) xs ≡ ys
xor_each_cancel [] [] h = refl
xor_each_cancel [] (y ∷ ys) h = absurd (omega arith)
xor_each_cancel (x ∷ xs) [] h = absurd (omega arith)
xor_each_cancel (x ∷ xs) (y ∷ ys) h =
    ap₂ (λ (t : ℕ) (u : List ℕ). t ∷ u) (bit_xor_cancel x y) (xor_each_cancel xs ys (omega arith))
