-- ===== src/Prelude/Outcome.antt =====
-- What a call gives: a value, a panic, or no answer for want of fuel.
use mathlib.Core.Path.{◌≡◌, refl}
use mathlib.Core.Option.{Option, none, some}

pub data Outcome {ℓ} (A : Type ℓ) : Type ℓ where
  returned : A → Outcome A
  panicked : Outcome A
  exhausted : Outcome A

infixl 5 ◌>>=◌
abbrev pub ◌>>=◌ {ℓ κ} : {A : Type ℓ} {B : Type κ} → Outcome A → (A → Outcome B) → Outcome B
returned a >>= f = f a
panicked >>= f = panicked
exhausted >>= f = exhausted

-- `expect`
abbrev pub expect {ℓ} : {A : Type ℓ} → Option A → Outcome A
expect none = panicked
expect (some a) = returned a

pub returned-injective {ℓ} : {A : Type ℓ} {a b : A} → returned a ≡ returned b → a ≡ b
returned-injective h = cc

-- Inversion of a chain that returns.
pub >>=-returned {ℓ κ} :
    {A : Type ℓ} {B : Type κ} (m : Outcome A) (f : A → Outcome B) {b : B}
    → (m >>= f) ≡ returned b
    → (a : A) × (m ≡ returned a) × (f a ≡ returned b)
>>=-returned (returned a) f h = (a, refl, h)
>>=-returned panicked f h = cc
>>=-returned exhausted f h = cc

pub expect-returned {ℓ} : {A : Type ℓ} (o : Option A) {a : A} → expect o ≡ returned a → o ≡ some a
expect-returned none h = cc
expect-returned (some b) h = cc
