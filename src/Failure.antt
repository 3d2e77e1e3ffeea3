-- ===== src/Failure.antt =====
-- Exceptions as values: app/services/exceptions.py, with the message where a handler reads it, the
-- built-in and database exceptions that the code meets, and results of code that may raise.
use sardoba_app_server.Prelude.{ℕ, String, Bool, true, false, Option, none, some}

pub data Failure : Type 0 where
  service_error : String → Failure
  -- raised `from` an HTTP status of iiko
  service_error_from : String → ℕ → Failure
  transient_service_error : String → Option ℕ → Failure
  rate_limit_exceeded otp_expired otp_invalid otp_delivery_failed : Failure
  authentication_error : String → Failure
  authorization_error external_service_bad_request : Failure
  not_found_error conflict_error : String → Failure
  value_error runtime_error : String → Failure
  http_exception : ℕ → String → Failure
  type_error key_error integrity_error data_error : Failure

pub data Outcome {ℓ} (A : Type ℓ) : Type ℓ where
  ok : A → Outcome A
  raised : Failure → Outcome A

infixl 5 ◌>>=◌
abbrev pub ◌>>=◌ {ℓ κ} : {A : Type ℓ} {B : Type κ} → Outcome A → (A → Outcome B) → Outcome B
ok a >>= f = f a
raised e >>= f = raised e

abbrev pub or_raise {ℓ} : {A : Type ℓ} → Option A → Failure → Outcome A
or_raise none e = raised e
or_raise (some a) e = ok a

-- `except ServiceError` catches these.
unfoldable pub is_service_error : Failure → Bool
is_service_error (value_error m) = false
is_service_error (runtime_error m) = false
is_service_error (http_exception n m) = false
is_service_error type_error = false
is_service_error key_error = false
is_service_error integrity_error = false
is_service_error data_error = false
is_service_error _ = true
