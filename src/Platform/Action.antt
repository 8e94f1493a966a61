-- ===== src/Platform/Action.antt =====
-- Code that reads its environment, changes a state and may throw. The state comes back beside an
-- error too: what was written stays written until somebody rolls it back. `Tx` is code inside a
-- transaction, `Handler` code outside of one.
pub mod Keeps
pub mod Steps
pub mod Yields
use pstu_hackathon.Base.{ℕ, Bool, Option, none, some, List, if◌then◌else◌}
use pstu_hackathon.Base.Int.{ℤ}
use pstu_hackathon.Shared.Text.{Text}
use pstu_hackathon.Platform.Errors.{AppError}
use pstu_hackathon.Platform.Schema.{IntervalKind}
use pstu_hackathon.Platform.Database.{Db}

-- config/index.ts, in the fields that the modelled code reads. Amounts are in poisha.
pub record Config : Type 0 where
  pub signup_bonus_minor : ℕ
  pub min_transfer_minor : ℕ
  pub max_transfer_minor : ℕ
  pub daily_transfer_limit_minor : ℕ
  pub transaction_deadline_ms : ℕ
  pub reversal_window_seconds : ℕ
  pub schedule_catchup_grace_ms : ℕ
  pub schedule_max_attempts : ℕ
  pub schedule_retry_base_seconds : ℕ
  pub access_token_ttl_seconds : ℕ
  pub refresh_token_ttl_seconds : ℕ
  pub max_pin_attempts : ℕ
  pub pin_lockout_minutes : ℕ
  pub replica_configured : Bool

-- velocity.service.ts
pub record VelocityPolicy : Type 0 where
  pub window_seconds : ℕ
  pub max_transfers : ℕ
  pub alert_threshold_minor : ℤ

-- What becomes of the statements of an attempt at a transaction. All are answered; or one of them, the
-- COMMIT included, fails with this error, or is not sent since the deadline has passed, and nothing is
-- committed; or the COMMIT is carried out, and the connection is lost before its answer.
pub data Fate : Type 0 where
  answered unanswered : Fate
  cut_off : AppError → Fate

-- What a call reads and does not change: the configuration, the clock of the database (`now()`, in
-- microseconds), the clock of the process (`Date.now()`, in milliseconds), the year, month and day of
-- such an instant, the instant at which such a day starts (`Date.UTC`), the bytes that `randomBytes(5)` returns for the transfer n, Argon2's verification of
-- a secret against a hash, `randomBytes(32)` in base64url for the row n, the signed token of a user with
-- this phone, the SHA-256 digest, `JSON.stringify` of a string, the position that
-- `pg_current_wal_insert_lsn()` reports, the place of a text in the order of the database's collation,
-- `+ interval` by a schedule's step, the milliseconds from the connection of the n-th attempt at a
-- transaction to the end of its BEGIN, what becomes of its statements, Redis' clock in milliseconds, and
-- whether Redis answers.
pub record Env : Type 0 where
  pub config : Config
  pub policy : VelocityPolicy
  pub now : ℕ
  pub date_now : ℕ
  pub utc_date : ℕ → ℕ × ℕ × ℕ
  pub date_utc : ℕ × ℕ × ℕ → ℕ
  pub random_bytes : ℕ → List ℕ
  pub verify_secret : Text → Text → Bool
  pub refresh_token : ℕ → Text
  pub access_token : ℕ → ℕ → Text
  pub wal_lsn : Option ℕ
  pub sha256 : Text → ℕ
  pub quote : Text → Text
  pub collation : Text → ℕ
  pub add_step : IntervalKind → ℕ → ℕ
  pub preamble_ms : ℕ → ℕ
  pub fate : ℕ → Fate
  pub redis_now : ℕ
  pub redis_up : Bool

-- Work that `tx.afterCommit` registers.
pub data Hook : Type 0 where
  publish_balance : ℕ → ℤ → ℕ → Hook
  track_position : List ℕ → ℕ → Hook
  send_security_alert : ℕ → Text → ℤ → Hook

-- The state of a transaction: the database as it sees it, and its hooks, latest first.
pub record State : Type 0 where
  pub db : Db
  pub hooks : List Hook

pub data Result (A : Type 0) : Type 0 where
  ok : A → Result A
  err : AppError → Result A

abbrev pub Action : Type 0 → Type 0 → Type 0
Action S A = Env → S → Result A × S

abbrev pub Tx : Type 0 → Type 0
Tx = Action State

module _ {S A : Type 0} where
  unfoldable pub pure : A → Action S A
  pure a env s = (ok a, s)

  unfoldable pub throw : AppError → Action S A
  throw e env s = (err e, s)

  unfoldable pub gets : (S → A) → Action S A
  gets f env s = (ok (f s), s)

  -- the value, or the error for a missing one
  unfoldable pub or_throw : Option A → AppError → Action S A
  or_throw none e env s = (err e, s)
  or_throw (some a) e env s = (ok a, s)

module _ {S : Type 0} where
  unfoldable pub ask : Action S Env
  ask env s = (ok env, s)

  unfoldable pub throw_if : Bool → AppError → Action S (Unit {0})
  throw_if b e env s = (if b then err e else ok tt, s)

  unfoldable pub update : (S → S) → Action S (Unit {0})
  update f env s = (ok tt, f s)

  -- `if (b) { m }`
  unfoldable pub when : Bool → Action S (Unit {0}) → Action S (Unit {0})
  when b m env s = if b then m env s else (ok tt, s)

module _ {S A B : Type 0} where
  unfoldable pub continue : Result A → (A → Action S B) → Action S B
  continue (ok a) f env s = f a env s
  continue (err e) f env s = (err e, s)

  infixl 5 ◌>>=◌ ◌>>◌
  unfoldable pub ◌>>=◌ : Action S A → (A → Action S B) → Action S B
  unfolding pure throw gets or_throw ask throw_if update when continue
  ◌>>=◌ m f env s = let (a, s') = m env s in continue a f env s'

  abbrev pub ◌>>◌ : Action S A → Action S B → Action S B
  m >> k = m >>= λ _. k
