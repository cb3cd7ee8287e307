-- ===== src/Prelude/Results.antt =====
-- What a call ends in: a value, one of the standard exceptions that the code throws, or undefined
-- behaviour.
use mathlib.Core.Path.{◌≡◌}

pub data Fault : Type 0 where
  runtime_error : Fault
  out_of_range : Fault
  invalid_argument : Fault
  undefined : Fault

pub data Result {ℓ} (A : Type ℓ) : Type ℓ where
  ok : A → Result A
  err : Fault → Result A

infixl 5 ◌>>=◌
abbrev pub ◌>>=◌ {ℓ κ} : {A : Type ℓ} {B : Type κ} → Result A → (A → Result B) → Result B
ok a >>= f = f a
err e >>= f = err e

-- The call ends normally, in a value with the property.
abbrev pub Returns {ℓ κ} : {A : Type ℓ} → Result A → (A → Type κ) → Type (ℓ ⊔ κ)
Returns {A} r P = (a : A) × (r ≡ ok a) × P a

pub ok_injective {ℓ} : {A : Type ℓ} (a b : A) → ok a ≡ ok b → a ≡ b
ok_injective a b e = cc
