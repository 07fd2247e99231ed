-- ===== src/Base/Outcomes.antt =====
-- What a call returns or throws.
use mathlib.Core.Path.{◌≡◌, refl}
use mathlib.Core.Logic.{◌⊎◌, inl, inr}

pub data Outcome {ℓ κ} (E : Type κ) (A : Type ℓ) : Type (ℓ ⊔ κ) where
  returned : A → Outcome E A
  thrown : E → Outcome E A

-- `abbrev`, so that a chain computes wherever it stands.
infixl 5 ◌>>=◌
abbrev pub ◌>>=◌ {ℓ κ θ} :
    {E : Type θ} {A : Type ℓ} {B : Type κ} → Outcome E A → (A → Outcome E B) → Outcome E B
returned a >>= f = f a
thrown e >>= f = thrown e

abbrev pub or_else {ℓ κ} : {E : Type κ} {A : Type ℓ} → A → Outcome E A → A
or_else a (returned b) = b
or_else a (thrown e) = a

pub Outcome-cases {ℓ κ} :
    {E : Type κ} {A : Type ℓ} (o : Outcome E A)
    → ((a : A) × (o ≡ returned a)) ⊎ ((e : E) × (o ≡ thrown e))
Outcome-cases (returned a) = inl (a, refl)
Outcome-cases (thrown e) = inr (e, refl)
