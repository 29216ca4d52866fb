-- ===== src/Prelude/Raise.antt =====
-- Python code that returns or raises.

-- The built-in exceptions that the modelled code can raise.
pub data PyError : Type 0 where
  attribute_error key_error unbound_local_error type_error not_implemented invalid_state
        library_error usage_error zero_division :
      PyError

pub data Outcome {ℓ} (A : Type ℓ) : Type ℓ where
  returns : A → Outcome A
  raises : PyError → Outcome A

infixl 5 ◌>>=◌
abbrev pub ◌>>=◌ {ℓ κ} : {A : Type ℓ} {B : Type κ} → Outcome A → (A → Outcome B) → Outcome B
returns a >>= f = f a
raises e >>= f = raises e
