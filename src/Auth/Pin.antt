-- ===== src/Auth/Pin.antt =====
-- backend/src/modules/auth/pin.service.ts: the transaction PIN and its lockout.
pub mod Right
pub mod Lockout
use pstu_hackathon.Base.{
  ℕ, ◌+◌, ◌-◌, ◌*◌, ◌/◌, Bool, true, false, ◌||◌, not, Option, none, some, ltb, leb, ◌==◌, is_some,
  if◌then◌else◌,
}
use pstu_hackathon.Base.Table.{find, modify}
use pstu_hackathon.Shared.Text.{Text}
use pstu_hackathon.Platform.Errors.{
  ErrorCode, AppError, domain, failure, locked_until, attempts_remaining,
}
use pstu_hackathon.Platform.Schema.{User, UserStatus}
use pstu_hackathon.Platform.Action.{
  Env, ok, Tx, throw, gets, or_throw, ask, throw_if, when, ◌>>=◌, ◌>>◌,
}
use pstu_hackathon.Platform.Transaction.{Handler, with_transaction}

abbrev pub user_key : User → ℕ
user_key u = u.id

abbrev pub is_active : UserStatus → Bool
is_active UserStatus.active = true
is_active UserStatus.suspended = false

-- `pin_locked_until !== null && pin_locked_until.getTime() > Date.now()`
abbrev pub is_locked : Option ℕ → ℕ → Bool
is_locked none date_now = false
is_locked (some until) date_now = ltb date_now (until / 1000)

abbrev pub or_zero : Option ℕ → ℕ
or_zero none = 0
or_zero (some n) = n

-- one more failed attempt, and the lock at the last one
abbrev pub count_failure : Env → User → User
count_failure env u = record u {
  failed_pin_attempts = u.failed_pin_attempts + 1;
  pin_locked_until =
      if leb env.config.max_pin_attempts (u.failed_pin_attempts + 1)
      then some (env.now + env.config.pin_lockout_minutes * 60_000_000)
      else u.pin_locked_until;
}

abbrev pub failures_of : Option User → ℕ
failures_of none = 0
failures_of (some u) = u.failed_pin_attempts

-- UPDATE users … RETURNING failed_pin_attempts
unfoldable pub count_failed_attempt : ℕ → Tx ℕ
count_failed_attempt id env s =
    let users = modify user_key id (count_failure env) s.db.users in
    (ok (failures_of (find user_key id users)), record s { db = record s.db { users = users } })

unfoldable pub record_failed_attempt : ℕ → Handler ℕ
unfolding count_failed_attempt
record_failed_attempt id = with_transaction (count_failed_attempt id)

abbrev pub clear_failures : User → User
clear_failures u = record u { failed_pin_attempts = 0; pin_locked_until = none }

unfoldable pub forget_failures : ℕ → Tx (Unit {0})
forget_failures id env s =
    (ok tt, record s { db = record s.db { users = modify user_key id clear_failures s.db.users } })

unfoldable pub clear_failed_attempts : ℕ → Handler (Unit {0})
unfolding forget_failures
clear_failed_attempts id = with_transaction (forget_failures id)

-- the error after a wrong PIN
abbrev pub pin_error : Env → ℕ → AppError
pin_error env attempts =
    if (env.config.max_pin_attempts - attempts) == 0
    then domain ErrorCode.pin_locked
        (locked_until (env.date_now + env.config.pin_lockout_minutes * 60_000))
    else domain ErrorCode.invalid_pin (attempts_remaining (env.config.max_pin_attempts - attempts))

unfoldable pub verify_pin : ℕ → Text → Handler (Unit {0})
unfolding record_failed_attempt clear_failed_attempts
verify_pin id pin = do
  env ← ask
  row ← gets (λ w. find user_key id w.db.users)
  user ← or_throw row (failure ErrorCode.not_found)
  throw_if (not (is_active user.status)) (failure ErrorCode.forbidden)
  throw_if (is_locked user.pin_locked_until env.date_now)
      (domain ErrorCode.pin_locked (locked_until (or_zero user.pin_locked_until)))
  if env.verify_secret user.pin_hash pin
      then when (ltb 0 user.failed_pin_attempts || is_some user.pin_locked_until)
          (clear_failed_attempts id)
      else (do attempts ← record_failed_attempt id; throw (pin_error env attempts))
