-- ===== src/Common/Congruence.antt =====
-- Congruence modulo m.
use Prim.Native.Nat.{ℕ, ◌+◌, ◌-◌, ◌*◌, ◌/◌, ◌%◌, ◌<◌}
use mathlib.Core.Path.{◌≡◌, refl, sym, ap, ap₂, ◌∙◌}
use native.Mathlib.Omega.{arith}
use native.Mathlib.Nat.{
  div-add-mod, add-mul-mod_self_left, mod-eq_of_lt, add-mod, mod-mod, mul_comm, mul-le-mul, le_refl,
}

abbrev pub Congruent : ℕ → ℕ → ℕ → Type 0
Congruent m a b = a % m ≡ b % m

-- Two numbers that differ by multiples of `m`.
pub mod_congr : (m a b j k : ℕ) → a + m * j ≡ b + m * k → Congruent m a b
mod_congr m a b j k e =
    sym (add-mul-mod_self_left a m j) ∙ ap (λ (t : ℕ). t % m) e ∙ add-mul-mod_self_left b m k

pub congr_mod : (m a : ℕ) → Congruent m (a % m) a
congr_mod m a = mod-mod a m

pub congr_unique : (m a b : ℕ) → a < m → b < m → Congruent m a b → a ≡ b
congr_unique m a b ha hb e = sym (mod-eq_of_lt ha) ∙ e ∙ mod-eq_of_lt hb

pub congr_add :
    (m a a' b b' : ℕ) → Congruent m a a' → Congruent m b b' → Congruent m (a + b) (a' + b')
congr_add m a a' b b' e f =
    add-mod a b m ∙ ap₂ (λ (s t : ℕ). (s + t) % m) e f ∙ sym (add-mod a' b' m)

congr_mul_right : (m a a' b : ℕ) → Congruent m a a' → Congruent m (a * b) (a' * b)
congr_mul_right m a a' b e = mod_congr m (a * b) (a' * b) (a' / m * b) (a / m * b) (
    omega (
      arith,
      ap (λ (t : ℕ). t * b) (div-add-mod a m),
      ap (λ (t : ℕ). t * b) (div-add-mod a' m),
      ap (λ (t : ℕ). t * b) e,
    ))

pub congr_mul :
    (m a a' b b' : ℕ) → Congruent m a a' → Congruent m b b' → Congruent m (a * b) (a' * b')
congr_mul m a a' b b' e f =
    congr_mul_right m a a' b e
    ∙ ap (λ (t : ℕ). t % m) (mul_comm a' b)
    ∙ congr_mul_right m b b' a' f
    ∙ ap (λ (t : ℕ). t % m) (mul_comm b' a')

-- A factor with an inverse cancels.
pub congr_cancel :
    (m a b r i : ℕ) → Congruent m (r * i) 1 → Congruent m (a * r) (b * r) → Congruent m a b
congr_cancel m a b r i inverse e = sym (back a) ∙ congr_mul_right m (a * r) (b * r) i e ∙ back b
  where
    back : (c : ℕ) → Congruent m (c * r * i) c
    back c =
        ap (λ (t : ℕ). t % m) {x = c * r * i} {y = c * (r * i)} (omega arith)
        ∙ congr_mul m c c (r * i) 1 refl inverse
        ∙ ap (λ (t : ℕ). t % m) {x = c * 1} {y = c} (omega arith)

-- A summand cancels.
pub congr_add_cancel : (m a b y : ℕ) → 0 < m → Congruent m (a + y) (b + y) → Congruent m a b
congr_add_cancel m a b y pos e =
    sym (back a) ∙ congr_add m (a + y) (b + y) (m * y - y) (m * y - y) e refl ∙ back b
  where
    back : (c : ℕ) → Congruent m (c + y + (m * y - y)) c
    back c =
        mod_congr m (c + y + (m * y - y)) c 0 y
          (omega (arith, mul-le-mul {n₁ = 1} {m₁ = y} {n₂ = m} {m₂ = y} pos (le_refl y)))
