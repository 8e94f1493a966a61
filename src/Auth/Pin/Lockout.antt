-- ===== src/Auth/Pin/Lockout.antt =====
-- The lock after too many wrong PINs.
use pstu_hackathon.Base.{
  ℕ, ◌+◌, ◌*◌, ◌/◌, ◌≡◌, ◌≤◌, ◌<◌, refl, ◌∙◌, arith, true, false, some, ltb, leb, ==_self,
}
use pstu_hackathon.Base.Table.{find, modify, find-modify}
use pstu_hackathon.Shared.Text.{Text}
use pstu_hackathon.Platform.Errors.{ErrorCode, domain, locked_until}
use pstu_hackathon.Platform.Schema.{User}
use pstu_hackathon.Platform.Action.{Env, ok, err, ◌>>=◌}
use pstu_hackathon.Platform.Transaction.{World, commit, run_hooks}
use pstu_hackathon.Platform.Transaction.Attempts.{InTime, with_transaction_ok}
use pstu_hackathon.Auth.Pin.{
  user_key, is_active, is_locked, count_failure, count_failed_attempt, record_failed_attempt,
  verify_pin,
}

-- the end of the lock that a failure at this moment starts
abbrev pub lock_end : Env → ℕ
lock_end env = env.now + env.config.pin_lockout_minutes * 60_000_000

module _ (id : ℕ) (env : Env) (w : World) (u : User) where
  -- the world after one more failure
  abbrev pub counted : World
  counted = record w {
    db = record w.db { users = modify user_key id (count_failure env) w.db.users };
  }

  recorded : InTime env 0 → (n : ℕ) × (record_failed_attempt id env w ≡ (ok n, counted))
  unfolding record_failed_attempt count_failed_attempt commit run_hooks
  recorded time = (_, with_transaction_ok (count_failed_attempt id) env w _ _ time refl)

  refused :
      (pin : Text)
      → find user_key id w.db.users ≡ some u
      → is_active u.status ≡ true
      → is_locked u.pin_locked_until env.date_now ≡ false
      → env.verify_secret u.pin_hash pin ≡ false
      → InTime env 0
      → (verify_pin id pin env w).1 ≡ counted
  unfolding verify_pin ◌>>=◌
  refused pin found active open_ wrong time =
      rw (found, active, open_, wrong, (recorded time).1) refl

  locked_row :
      find user_key id w.db.users ≡ some u
      → env.config.max_pin_attempts ≤ u.failed_pin_attempts + 1
      → find user_key id counted.db.users
        ≡ some (record u {
          failed_pin_attempts = u.failed_pin_attempts + 1;
          pin_locked_until = some (lock_end env);
        })
  locked_row found many =
      find-modify user_key id id (count_failure env) w.db.users (λ x. refl)
      ∙ rw (==_self id, found, reached many) refl
    where
      reached :
          env.config.max_pin_attempts ≤ u.failed_pin_attempts + 1
          → leb env.config.max_pin_attempts (u.failed_pin_attempts + 1) ≡ true
      reached h = ground (arith, h)

  -- When an active user who is not locked gives a wrong PIN for the last time that is allowed, no PIN is
  -- accepted afterwards, be it the right one, until the lock ends: the call answers PIN_LOCKED with the end
  -- of the lock, and changes nothing. The connection that counts the failure comes back in time.
  pub last_failure_locks :
      (pin any : Text) (later : Env)
      → find user_key id w.db.users ≡ some u
      → is_active u.status ≡ true
      → is_locked u.pin_locked_until env.date_now ≡ false
      → env.verify_secret u.pin_hash pin ≡ false
      → InTime env 0
      → env.config.max_pin_attempts ≤ u.failed_pin_attempts + 1
      → later.date_now < lock_end env / 1000
      → verify_pin id any later (verify_pin id pin env w).1 ≡ (
        err (domain ErrorCode.pin_locked (locked_until (lock_end env))),
        (verify_pin id pin env w).1,
      )
  unfolding verify_pin ◌>>=◌
  last_failure_locks pin any later found active open_ wrong time many soon =
      rw (refused pin found active open_ wrong time)
        (rw (locked_row found many, active, still) refl)
    where
      still : ltb later.date_now (lock_end env / 1000) ≡ true
      still = ground (arith, soon)
