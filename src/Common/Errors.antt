-- ===== src/Common/Errors.antt =====
-- A method that may raise `ValueError` or `KeyError`.
use Prim.Native.String.{String}
use mathlib.Core.Path.{◌≡◌, refl}
use mathlib.Core.Logic.{◌⊎◌, inl, inr}

pub data Error : Type 0 where
  value_error : String → Error
  key_error : String → Error

pub data Result {ℓ} (Value : Type ℓ) : Type ℓ where
  raise : Error → Result Value
  ok : Value → Result Value

-- What follows a statement runs only if the statement did not raise.
module _ {ℓ κ} {Value : Type ℓ} {Next : Type κ} where
  infixl 5 ◌>>=◌
  abbrev pub ◌>>=◌ : Result Value → (Value → Result Next) → Result Next
  raise error >>= rest = raise error
  ok value >>= rest = rest value

  pub >>=-eq-ok :
      (first : Result Value) (rest : Value → Result Next) {final : Next}
      → first >>= rest ≡ ok final
      → (value : Value) × (first ≡ ok value) × (rest value ≡ ok final)
  >>=-eq-ok (raise error) rest done = cc
  >>=-eq-ok (ok value) rest done = (value, refl, done)

-- A statement returned or raised.
pub Result-cases {ℓ} :
    {Value : Type ℓ} (r : Result Value)
    → ((value : Value) × (r ≡ ok value)) ⊎ ((error : Error) × (r ≡ raise error))
Result-cases (raise error) = inr (error, refl)
Result-cases (ok value) = inl (value, refl)
