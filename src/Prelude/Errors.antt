-- ===== src/Prelude/Errors.antt =====
-- Python exceptions as values: a call returns, or raises one of the exceptions that the code uses.
use Prim.Native.String.{String}
use mathlib.Core.Logic.{◌⊎◌, inl, inr}
use mathlib.Core.Bool.{Bool, true, false}
use mathlib.Core.Path.{◌≡◌, refl}

pub data Error : Type 0 where
  value_error : String → Error
  runtime_error : String → Error
  ingestion_error : String → Error
  intake_full : Error
  job_error : String → Error
  sqlite_error : Error
  index_error : Error
  assertion_error : Error

-- How a call ends.
pub data Result {ℓ} (Value : Type ℓ) : Type ℓ where
  ok : Value → Result Value
  err : Error → Result Value

-- `if condition: raise exception`
abbrev pub refuse : Bool → Error → Result (Unit {0})
refuse false exception = ok tt
refuse true exception = err exception

-- `if not condition: raise exception`
abbrev pub require : Bool → Error → Result (Unit {0})
require false exception = err exception
require true exception = ok tt

module _ {ℓ κ} {A : Type ℓ} {B : Type κ} where
  -- An exception skips what follows the call.
  infixl 5 ◌>>=◌
  abbrev pub ◌>>=◌ : Result A → (A → Result B) → Result B
  err exception >>= next = err exception
  ok value >>= next = next value

  -- Where a chain returns, its first call has returned.
  pub >>=-returns :
      {next : A → Result B} {answer : B} (call : Result A)
      → (call >>= next) ≡ ok answer
      → (value : A) × (next value ≡ ok answer) × (call ≡ ok value)
  >>=-returns (err exception) h = cc
  >>=-returns (ok value) h = (value, h, refl)

module _ {ℓ} {B : Type ℓ} where
  infixl 5 ◌>>◌
  abbrev pub ◌>>◌ : Result (Unit {0}) → Result B → Result B
  check >> following = check >>= λ done. following

  pub >>-returns :
      {following : Result B} {answer : B} (check : Result (Unit {0}))
      → (check >> following) ≡ ok answer
      → (following ≡ ok answer) × (check ≡ ok tt)
  >>-returns (err exception) h = cc
  >>-returns (ok done) h = (h, refl)

module _ {ℓ} {A : Type ℓ} where
  pub ok_same : (a b : A) → ok a ≡ ok b → a ≡ b
  ok_same a b h = cc

  pub Result-cases : (x : Result A) → ((a : A) × (x ≡ ok a)) ⊎ ((e : Error) × (x ≡ err e))
  Result-cases (ok a) = inl (a, refl)
  Result-cases (err e) = inr (e, refl)
