-- ===== src/Apperr.antt =====
-- internal/domain/apperr/apperr.go: the error shapes, and what a fallible function returns.
use flood_now_backend.Base.{String, List}
use flood_now_backend.Base.Int.{ℤ}

-- One constructor for each function that builds an Error here. A validation error keeps the names
-- of its fields; `database` stands for a driver error, which the adapters only wrap.
pub data Error : Type 0 where
  validation : String → List String → Error
  not_found : String → Error
  conflict : String → Error
  unauthorized : String → Error
  rate_limited : String → Error
  insufficient_credit : ℤ → ℤ → Error
  database : String → Error

pub data Result {ℓ} (A : Type ℓ) : Type ℓ where
  ok : A → Result A
  err : Error → Result A
