-- ===== src/AppError.antt =====
-- src/error.rs: the errors, and the code that a stratum client is told.
use cs_stratum_bridge.Base.{ℕ, Text, codes}

pub data AppError : Type 0 where
  unauthorized unknown_request not_assigned_to_caller : AppError
  rejected rpc db other : Text → AppError

-- The code of `to_stratum_error`.
unfoldable pub stratum_code : AppError → ℕ
stratum_code unauthorized = 24
stratum_code unknown_request = 20
stratum_code not_assigned_to_caller = 25
stratum_code (rejected _) = 20
stratum_code (rpc _) = 20
stratum_code (db _) = 20
stratum_code (other _) = 20

pub data Result {ℓ} (A : Type ℓ) : Type ℓ where
  ok : A → Result A
  err : AppError → Result A

infixl 5 ◌>>=◌
abbrev pub ◌>>=◌ {ℓ κ} : {A : Type ℓ} {B : Type κ} → Result A → (A → Result B) → Result B
ok a >>= f = f a
err e >>= f = err e

-- `to_string`: a database's and another's error gives its own text.
unfoldable pub display : AppError → Text
display unauthorized = codes "unauthorized"
display unknown_request = codes "unknown or already-resolved request_id"
display not_assigned_to_caller = codes "request_id was not assigned to this connection"
display (rejected t) = t
display (rpc t) = t
display (db t) = t
display (other t) = t
