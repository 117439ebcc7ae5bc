-- ===== src/Common/Results.antt =====
-- Go's (value, error) pair: a value or an error.
use mathlib.Core.Path.{◌≡◌, refl}
use mathlib.Core.Logic.{◌⊎◌, inl, inr}

pub data Result {ℓ κ} (E : Type κ) (A : Type ℓ) : Type (ℓ ⊔ κ) where
  ok : A → Result E A
  err : E → Result E A

pub ok-injective {ℓ κ} :
    {Failure : Type κ} {Value : Type ℓ} {x y : Value}
    → ◌≡◌ {A = Result Failure Value} (ok x) (ok y)
    → x ≡ y
ok-injective same = cc

-- `if err != nil { return err }` after a call.
infixl 5 ◌>>=◌
abbrev pub ◌>>=◌ {ℓ κ μ} :
    {E : Type κ} {A : Type ℓ} {B : Type μ} → Result E A → (A → Result E B) → Result E B
err failure >>= next = err failure
ok value >>= next = next value

pub Result-cases {ℓ κ} :
    {Failure : Type κ} {Value : Type ℓ} (answer : Result Failure Value)
    → ((value : Value) × (answer ≡ ok value)) ⊎ ((failure : Failure) × (answer ≡ err failure))
Result-cases (err failure) = inr (failure, refl)
Result-cases (ok value) = inl (value, refl)
