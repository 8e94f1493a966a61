-- ===== src/Platform/Transaction.antt =====
-- backend/src/platform/db/transaction.ts: the transaction boundary, with its retries and the hooks that
-- run after a commit.
pub mod Attempts
use pstu_hackathon.Base.{
  ℕ, zero, suc, ◌+◌, Bool, true, false, ◌&&◌, Option, none, some, List, [], ◌∷◌, ltb, if◌then◌else◌,
}
use pstu_hackathon.Base.Int.{ℤ}
use pstu_hackathon.Shared.Text.{Text}
use pstu_hackathon.Platform.Errors.{ErrorCode, AppError, failure, fault, is_retryable}
use pstu_hackathon.Platform.Database.{Db}
use pstu_hackathon.Platform.Action.{
  Env, Fate, answered, unanswered, cut_off, Hook, publish_balance, track_position,
  send_security_alert, State, Result, ok, err, Action, Tx,
}
use pstu_hackathon.Platform.BalanceCache
use pstu_hackathon.Platform.BalanceCache.{Cache}

pub record Alert : Type 0 where
  pub user_id : ℕ
  pub reference : Text
  pub amount_minor : ℤ

-- What outlives a transaction: the committed database, Redis, and the security alerts sent, latest
-- first. `positions` holds the write positions that `trackWrite` publishes.
pub record World : Type 0 where
  pub db : Db
  pub cache : Cache
  pub positions : List (ℕ × ℕ)
  pub alerts : List Alert

-- Code outside of a transaction.
abbrev pub Handler : Type 0 → Type 0
Handler = Action World

unfoldable pub track_all : List ℕ → ℕ → List (ℕ × ℕ) → List (ℕ × ℕ)
track_all [] lsn positions = positions
track_all (u ∷ us) lsn positions = track_all us lsn ((u, lsn) ∷ positions)

unfoldable pub run_hook : Env → Hook → World → World
unfolding BalanceCache.write_balance track_all
run_hook env (publish_balance id balance version) w = record w {
  cache =
      (BalanceCache.write_balance env.redis_up env.redis_now id
        (record { balance_minor = balance; version = version }) w.cache).1;
}
run_hook env (track_position users lsn) w = record w {
  positions = if env.redis_up then track_all users lsn w.positions else w.positions;
}
run_hook env (send_security_alert user reference amount) w = record w {
  alerts = record { user_id = user; reference = reference; amount_minor = amount } ∷ w.alerts;
}

-- The hooks run in the order of their registration, which is the last one of the list first.
unfoldable pub run_hooks : Env → List Hook → World → World
unfolding run_hook
run_hooks env [] w = w
run_hooks env (h ∷ hs) w = run_hook env h (run_hooks env hs w)

-- BEGIN: hooks are reset for every attempt.
abbrev pub begin : World → State
begin w = record { db = w.db; hooks = [] }

-- COMMIT, and then the hooks
unfoldable pub commit : Env → State → World → World
unfolding run_hooks
commit env s w = run_hooks env s.hooks (record w { db = s.db })

module _ {A : Type 0} where
  -- The end of an attempt. The hooks run only where the COMMIT is answered; a ROLLBACK after one that
  -- has been carried out undoes nothing.
  abbrev pub conclude : Fate → Env → World → Result A × State → Result A × World
  conclude (cut_off e) env w o = (err e, w)
  conclude answered env w (err e, s) = (err e, w)
  conclude answered env w (ok a, s) = (ok a, commit env s w)
  conclude unanswered env w (err e, s) = (err e, w)
  conclude unanswered env w (ok a, s) = (err fault, record w { db = s.db })

  -- The n-th attempt: the callback runs if BEGIN came back within the deadline.
  unfoldable pub attempt : (ℕ → Tx A) → ℕ → Handler A
  unfolding commit
  attempt fn n env w =
      if ltb env.config.transaction_deadline_ms (env.preamble_ms n)
      then (err (failure ErrorCode.service_unavailable), w)
      else conclude (env.fate n) env w (fn n env (begin w))

  -- The loop over the attempts: `left` of them, of which the next is the n-th.
  unfoldable pub attempts : ℕ → ℕ → AppError → (ℕ → Tx A) → Handler A
  attempts zero n last fn env w = (err last, w)
  attempts (suc left) n last fn env w =
      let (r, w') = attempt fn n env w in
      elim r [
        | ok a ↦ (ok a, w')
        | err e ↦
            let again = attempts left (n + 1) e fn env w' in
            if is_retryable e && ltb 0 left then again else (err e, w')
      ]

  -- `withTransaction(fn, { maxAttempts })`
  unfoldable pub with_attempts : ℕ → (ℕ → Tx A) → Handler A
  unfolding attempts
  with_attempts max_attempts fn = attempts max_attempts 0 fault fn

  -- `withTransaction(fn)`, for a callback that does the same in every attempt
  unfoldable pub with_transaction : Tx A → Handler A
  unfolding with_attempts
  with_transaction fn = with_attempts 3 (λ _. fn)

  -- `withReadTransaction(fn)`
  unfoldable pub with_read_transaction : Tx A → Handler A
  unfolding with_attempts
  with_read_transaction fn = with_attempts 1 (λ _. fn)
