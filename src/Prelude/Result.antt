-- ===== src/Prelude/Result.antt =====
-- What a Go function with an `error` result returns. csilservices/errors.go separates the
-- failures a caller may see (`*AppError`) from all others; store.ErrNotFound and
-- store.ErrLimitReached are the two sentinels that handlers test with `errors.Is`.
use Prim.Native.Nat.{ℕ}
use Prim.Native.String.{String}
use mathlib.Core.Bool.{Bool, true, false}
use mathlib.Core.Path.{◌≡◌, refl}
use mathlib.Core.Logic.{◌⊎◌, inl, inr}

pub record AppError : Type 0 where
  pub code : ℕ
  pub message : String
  pub field : String
  pub resource_type : String

pub data Error : Type 0 where
  app : AppError → Error
  err_not_found : Error
  err_limit_reached : Error
  internal : String → Error

pub data Result {ℓ} (A : Type ℓ) : Type ℓ where
  ok : A → Result A
  err : Error → Result A

abbrev pub is_ok {ℓ} : {A : Type ℓ} → Result A → Bool
is_ok (ok a) = true
is_ok (err e) = false

pub Result-cases :
    {A : Type 0} (r : Result A) → ((a : A) × (r ≡ ok a)) ⊎ ((e : Error) × (r ≡ err e))
Result-cases (ok a) = inl (a, refl)
Result-cases (err e) = inr (e, refl)
