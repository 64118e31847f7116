-- ===== src/Prelude/Errors.antt =====
-- The value or the error of a call that may fail, as Go's `(T, error)`.
use mathlib.Core.Path.{◌≡◌, refl}
use mathlib.Core.Logic.{◌⊎◌, inl, inr}

pub data Result {ℓ κ} (E : Type ℓ) (A : Type κ) : Type (ℓ ⊔ κ) where
  ok : A → Result E A
  err : E → Result E A

infixl 5 ◌>>=◌
abbrev pub ◌>>=◌ {ℓ κ ν} :
    {E : Type ℓ} {A : Type κ} {B : Type ν} → Result E A → (A → Result E B) → Result E B
ok a >>= f = f a
err e >>= f = err e

pub Result-cases {ℓ κ} :
    {E : Type ℓ} {A : Type κ} (r : Result E A) → ((a : A) × (r ≡ ok a)) ⊎ ((e : E) × (r ≡ err e))
Result-cases (ok a) = inl (a, refl)
Result-cases (err e) = inr (e, refl)

abbrev pub map_result {ℓ κ ν} :
    {E : Type ℓ} {A : Type κ} {B : Type ν} → (A → B) → Result E A → Result E B
map_result f (ok a) = ok (f a)
map_result f (err e) = err e

-- A chain that ends without an error had a first step without one.
pub bind-ok {ℓ κ ν} :
    {E : Type ℓ} {A : Type κ} {B : Type ν} (r : Result E A) (next : A → Result E B) {end : B}
    → (r >>= next) ≡ ok end
    → (x : A) × (r ≡ ok x) × (next x ≡ ok end)
bind-ok (err e) next h = absurd (cc h)
bind-ok (ok x) next h = (x, refl, h)
