-- ===== src/Prelude/Result.antt =====
-- `Result<T, E>`: a value or an error, with the chaining that `?` writes.
use mathlib.Core.Path.{◌≡◌, refl}
use mathlib.Core.Logic.{◌⊎◌, inl, inr}
use mathlib.Core.Bool.{Bool, true, false}
use mathlib.Core.Option.{Option, none, some}

pub data Result {ℓ κ} (E : Type κ) (A : Type ℓ) : Type (ℓ ⊔ κ) where
  ok : A → Result E A
  err : E → Result E A

infixl 5 ◌>>=◌ ◌>>◌
abbrev pub ◌>>=◌ {ℓ κ ρ} :
    {E : Type κ} {A : Type ℓ} {B : Type ρ} → Result E A → (A → Result E B) → Result E B
err failure >>= next = err failure
ok value >>= next = next value

abbrev pub ◌>>◌ {ℓ κ} : {E : Type κ} {B : Type ℓ} → Result E (Unit {0}) → Result E B → Result E B
check >> next = check >>= λ _. next

-- `ensure!(condition, error)`
abbrev pub ensure {κ} : {E : Type κ} → Bool → E → Result E (Unit {0})
ensure true e = ok tt
ensure false e = err e

-- `ok_or_else(|| error)`
abbrev pub ok_or {ℓ κ} : {E : Type κ} {A : Type ℓ} → Option A → E → Result E A
ok_or none e = err e
ok_or (some a) e = ok a

pub Result-cases {ℓ κ} :
    {E : Type κ} {A : Type ℓ} (r : Result E A) → ((a : A) × (r ≡ ok a)) ⊎ ((e : E) × (r ≡ err e))
Result-cases (ok a) = inl (a, refl)
Result-cases (err e) = inr (e, refl)

-- Inversion of a chain that succeeds.
pub >>=-eq-ok {ℓ κ ρ} :
    {E : Type κ} {A : Type ℓ} {B : Type ρ} (first : Result E A) (next : A → Result E B) {out : B}
    → (first >>= next) ≡ ok out
    → (value : A) × (first ≡ ok value) × (next value ≡ ok out)
>>=-eq-ok (err failure) next succeeds = cc
>>=-eq-ok (ok value) next succeeds = (value, refl, succeeds)
