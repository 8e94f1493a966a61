-- ===== src/Platform/Errors.antt =====
-- backend/src/platform/errors/index.ts. The texts of the messages are not modelled.
use pstu_hackathon.Base.{ℕ, Bool, true, false, Option, none, some}
use pstu_hackathon.Base.Int.{ℤ}

pub data ErrorCode : Type 0 where
  validation_error unauthenticated invalid_credentials invalid_pin pin_locked : ErrorCode
  forbidden account_frozen not_found idempotency_key_reuse request_in_progress : ErrorCode
  invalid_state insufficient_funds limit_exceeded self_transfer duplicate : ErrorCode
  rate_limited internal service_unavailable : ErrorCode

unfoldable pub status_by_code : ErrorCode → ℕ
status_by_code ErrorCode.validation_error = 400
status_by_code ErrorCode.unauthenticated = 401
status_by_code ErrorCode.invalid_credentials = 401
status_by_code ErrorCode.invalid_pin = 401
status_by_code ErrorCode.pin_locked = 423
status_by_code ErrorCode.forbidden = 403
status_by_code ErrorCode.account_frozen = 403
status_by_code ErrorCode.not_found = 404
status_by_code ErrorCode.idempotency_key_reuse = 409
status_by_code ErrorCode.request_in_progress = 409
status_by_code ErrorCode.invalid_state = 409
status_by_code ErrorCode.duplicate = 409
status_by_code ErrorCode.insufficient_funds = 422
status_by_code ErrorCode.limit_exceeded = 422
status_by_code ErrorCode.self_transfer = 422
status_by_code ErrorCode.rate_limited = 429
status_by_code ErrorCode.internal = 500
status_by_code ErrorCode.service_unavailable = 503

-- what the `details` and the `Retry-After` header of an error carry
pub data Details : Type 0 where
  no_details : Details
  attempts_remaining : ℕ → Details
  locked_until : ℕ → Details
  retry_after : ℕ → Details
  balance_required : ℤ → ℤ → Details

-- the SQLSTATE codes of `PG_ERRORS` that the code names
pub data SqlState : Type 0 where
  unique_violation check_violation foreign_key_violation serialization_failure : SqlState
  deadlock_detected lock_not_available query_canceled admin_shutdown cannot_connect_now : SqlState
  restrict_violation other_state : SqlState

pub data Constraint : Type 0 where
  non_negative_user_balance other_constraint : Constraint

-- A `DomainError`, an error of the `pg` driver, or any other throw.
pub data AppError : Type 0 where
  domain : ErrorCode → Details → AppError
  pg : SqlState → Constraint → AppError
  fault : AppError

-- the factories of `errors`
abbrev pub failure : ErrorCode → AppError
failure code = domain code no_details

abbrev pub insufficient_funds_error : ℤ → ℤ → AppError
insufficient_funds_error balance required =
    domain ErrorCode.insufficient_funds (balance_required balance required)

-- the SQLSTATE of an error; the code of a DomainError, which is a string too, is none
unfoldable pub pg_error_code : AppError → Option SqlState
pg_error_code (domain c d) = none
pg_error_code (pg s k) = some s
pg_error_code fault = none

-- `RETRYABLE` in db/transaction.ts
unfoldable pub is_retryable : AppError → Bool
is_retryable (pg SqlState.serialization_failure k) = true
is_retryable (pg SqlState.deadlock_detected k) = true
is_retryable e = false
