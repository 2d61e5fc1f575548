-- ===== src/Outcome.antt =====
-- What a Rust function returns: a value, an error of its error type, a panic, or nothing at all
-- because a loop does not end.
use libprio_rs.Common.{◌≡◌, ◌≢◌, refl, ap, Bool, true, false}

pub data Outcome {ℓ κ} (E : Type ℓ) (A : Type κ) : Type (ℓ ⊔ κ) where
  ok : A → Outcome E A
  err : E → Outcome E A
  panicked : Outcome E A
  diverged : Outcome E A

infixl 5 ◌>>=◌ ◌>>◌
abbrev pub ◌>>=◌ {ℓ κ μ} :
    {E : Type ℓ} {A : Type κ} {B : Type μ} → Outcome E A → (A → Outcome E B) → Outcome E B
ok a >>= f = f a
err e >>= f = err e
panicked >>= f = panicked
diverged >>= f = diverged

abbrev pub ◌>>◌ {ℓ κ} : {E : Type ℓ} {B : Type κ} → Outcome E (Unit {0}) → Outcome E B → Outcome E B
m >> k = m >>= λ _. k

-- `map_err`
abbrev pub map_err {ℓ κ μ} :
    {E : Type ℓ} {F : Type κ} {A : Type μ} → (E → F) → Outcome E A → Outcome F A
map_err f (ok a) = ok a
map_err f (err e) = err (f e)
map_err f panicked = panicked
map_err f diverged = diverged

-- `assert!(b)`
abbrev pub assert {ℓ} : {E : Type ℓ} → Bool → Outcome E (Unit {0})
assert true = ok tt
assert false = panicked

-- `if !b { return Err(e) }`
abbrev pub guard {ℓ} : {E : Type ℓ} → Bool → E → Outcome E (Unit {0})
guard true e = ok tt
guard false e = err e

-- A value of a chain comes from a value of its first part.
pub >>=-eq-ok {ℓ κ μ} :
    {E : Type ℓ} {A : Type κ} {B : Type μ} (first : Outcome E A) (next : A → Outcome E B) {r : B}
    → (first >>= next) ≡ ok r
    → (x : A) × (first ≡ ok x) × (next x ≡ ok r)
>>=-eq-ok panicked next e = cc
>>=-eq-ok diverged next e = cc
>>=-eq-ok (err reason) next e = cc
>>=-eq-ok (ok x) next e = (x, refl, e)

pub >>=-ne-diverged {ℓ κ μ} :
    {E : Type ℓ} {A : Type κ} {B : Type μ} (m : Outcome E A) (f : A → Outcome E B)
    → m ≢ diverged
    → ((a : A) → m ≡ ok a → f a ≢ diverged)
    → (m >>= f) ≢ diverged
>>=-ne-diverged (ok a) f h k = k a refl
>>=-ne-diverged (err e) f h k = λ q. cc
>>=-ne-diverged panicked f h k = λ q. cc
>>=-ne-diverged diverged f h k = λ q. h refl

-- A value of `map_err` is the value under it.
pub map_err-eq-ok {ℓ κ μ} :
    {E : Type ℓ} {F : Type κ} {A : Type μ} (g : E → F) (m : Outcome E A) {r : A}
    → map_err g m ≡ ok r
    → m ≡ ok r
map_err-eq-ok g (ok x) e = let same : x ≡ _ = cc e in ap ok same
map_err-eq-ok g (err x) e = cc
map_err-eq-ok g panicked e = cc
map_err-eq-ok g diverged e = cc
