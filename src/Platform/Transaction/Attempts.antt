-- ===== src/Platform/Transaction/Attempts.antt =====
-- What a transaction with retries does: one attempt counts, and a failure leaves no trace but for a
-- COMMIT whose answer is lost.
use pstu_hackathon.Base.{
  ℕ, zero, suc, ◌+◌, ◌<◌, ◌≡◌, ◌≢◌, refl, ap, ◌⊎◌, inl, inr, true, false, ◌&&◌, arith, ltb,
  Bool-cases, if◌then◌else◌,
}
use pstu_hackathon.Platform.Errors.{ErrorCode, AppError, failure, is_retryable, fault}
use pstu_hackathon.Platform.Action.{
  Env, Fate, answered, unanswered, cut_off, State, Result, ok, err, Tx,
}
use pstu_hackathon.Platform.Transaction.{
  conclude, with_read_transaction, World, commit, attempt, attempts, with_attempts,
  with_transaction, begin,
}

-- BEGIN of the n-th attempt comes back within the deadline.
abbrev pub IsPunctual : Env → ℕ → Type 0
IsPunctual env n = ltb env.config.transaction_deadline_ms (env.preamble_ms n) ≡ false

-- It does, and all the statements of the attempt are answered.
abbrev pub InTime : Env → ℕ → Type 0
InTime env n = IsPunctual env n × (env.fate n ≡ answered)

module _ {A : Type 0} (fn : ℕ → Tx A) (env : Env) (w : World) where
  -- The n-th attempt fails with `e`, and nothing is committed: BEGIN is late, a statement fails, or the
  -- callback throws.
  pub data Fails (n : ℕ) : AppError → Type 0 where
    late :
        (ltb env.config.transaction_deadline_ms (env.preamble_ms n) ≡ true)
        → Fails n (failure ErrorCode.service_unavailable)
    interrupted : (e : AppError) → env.fate n ≡ cut_off e → Fails n e
    threw : (e : AppError) (s : State) → fn n env (begin w) ≡ (err e, s) → Fails n e

  -- Every attempt before the n-th fails with a serialization failure or a deadlock.
  abbrev pub Retried : ℕ → Type 0
  Retried n = (m : ℕ) → m < n → (e : AppError) × Fails m e × (is_retryable e ≡ true)

  -- How one attempt ends.
  data Attempted (n : ℕ) : Result A × World → Type 0 where
    done :
        (a : A) (s : State)
        → InTime env n
        → fn n env (begin w) ≡ (ok a, s)
        → Attempted n (ok a, commit env s w)
    lost :
        (a : A) (s : State)
        → IsPunctual env n
        → env.fate n ≡ unanswered
        → fn n env (begin w) ≡ (ok a, s)
        → Attempted n (err fault, record w { db = s.db })
    failed : (e : AppError) → Fails n e → Attempted n (err e, w)

  -- How a call with `max` attempts may end: the n-th is the last one. It succeeds, and its database is
  -- committed and its hooks run; or its COMMIT is carried out and not answered, and the call throws; or
  -- it fails, and the world is as before.
  pub data Settles (max : ℕ) : Result A × World → Type 0 where
    committed :
        (n : ℕ) (a : A) (s : State)
        → n < max
        → Retried n
        → InTime env n
        → fn n env (begin w) ≡ (ok a, s)
        → Settles max (ok a, commit env s w)
    doubtful :
        (n : ℕ) (a : A) (s : State)
        → n < max
        → Retried n
        → env.fate n ≡ unanswered
        → fn n env (begin w) ≡ (ok a, s)
        → Settles max (err fault, record w { db = s.db })
    refused :
        (n : ℕ) (e : AppError)
        → n < max
        → Retried n
        → Fails n e
        → (is_retryable e ≡ false) ⊎ (n + 1 ≡ max)
        → Settles max (err e, w)

  concluded :
      (n : ℕ) (f : Fate) (o : Result A × State)
      → IsPunctual env n
      → env.fate n ≡ f
      → fn n env (begin w) ≡ o
      → Attempted n (conclude f env w o)
  concluded n (cut_off e) o time fate ran = failed e (interrupted e fate)
  concluded n answered (ok a, s) time fate ran = done a s (time, fate) ran
  concluded n answered (err e, s) time fate ran = failed e (threw e s ran)
  concluded n unanswered (ok a, s) time fate ran = lost a s time fate ran
  concluded n unanswered (err e, s) time fate ran = failed e (threw e s ran)

  attempt-Attempted : (n : ℕ) → Attempted n (attempt fn n env w)
  unfolding attempt
  attempt-Attempted n =
      elim (Bool-cases (ltb env.config.transaction_deadline_ms (env.preamble_ms n))) [
        | inl e ↦ rw e (failed (failure ErrorCode.service_unavailable) (late e))
        | inr time ↦ rw time (concluded n (env.fate n) (fn n env (begin w)) time refl refl)
      ]

  retry_more :
      (n : ℕ) (e : AppError) → Retried n → Fails n e → is_retryable e ≡ true → Retried (n + 1)
  retry_more n e before f r m lt = elim (Bool-cases (ltb m n)) [
    | inl less ↦ before m (ground arith)
    | inr last ↦ rw (same (ground arith)) (e, f, r)
  ]
    where
      same : n < m + 1 → m ≡ n
      same h = omega arith

  -- the end of one attempt: `again` is the rest of the loop, and `rest` says what that does
  finish :
      (max n left : ℕ) (o : Result A × World)
      → Attempted n o
      → n < max
      → Retried n
      → (left ≡ 0 → n + 1 ≡ max)
      → (again : AppError → World → Result A × World)
      → ((e : AppError) → left ≢ 0 → Retried (n + 1) → Settles max (again e w))
      → Settles max (elim o.0 [
        | ok a ↦ (ok a, o.1)
        | err e ↦ if is_retryable e && ltb 0 left then again e o.1 else (err e, o.1)
      ])
  unfolding is_retryable
  finish max n left o (done a s time ran) lt before end again rest =
      committed n a s lt before time ran
  finish max n left o (lost a s time fate ran) lt before end again rest =
      doubtful n a s lt before fate ran
  finish max n left o (failed e f) lt before end again rest = elim (Bool-cases (is_retryable e)) [
    | inr final ↦ rw final (refused n e lt before f (inl final))
    | inl retry ↦ elim (Bool-cases (ltb 0 left)) [
      | inl more ↦ rw (retry, more) (rest e (ground arith) (retry_more n e before f retry))
      | inr last ↦ rw (retry, last) (refused n e lt before f (inr (end (ground arith))))
    ]
  ]

  attempts-Settles :
      (left n max : ℕ) (last : AppError)
      → n + left ≡ max
      → left ≢ 0
      → Retried n
      → Settles max (attempts left n last fn env w)
  unfolding attempts
  attempts-Settles zero n max last total some_left before = absurd (some_left refl)
  attempts-Settles (suc left) n max last total some_left before =
      finish max n left (attempt fn n env w) (attempt-Attempted n) (omega arith) before
        (λ z. omega arith) (λ e w'. attempts left (n + 1) e fn env w')
        (λ e more again. attempts-Settles left (n + 1) max e (omega arith) more again)

  -- A transaction that may be attempted at least once ends by one of its attempts: those before it
  -- failed with a serialization failure or a deadlock, and committed nothing. If that attempt is in time
  -- and its callback returns, its database is committed and its hooks run, and the call returns; or the
  -- answer to the COMMIT is lost, and the call throws although the database is committed. If it fails, no
  -- retry was left or the error is of another kind, and the database, the cache and the alerts are as
  -- they were.
  pub with_attempts-Settles : (max : ℕ) → max ≢ 0 → Settles max (with_attempts max fn env w)
  unfolding with_attempts
  with_attempts-Settles max some_left =
      attempts-Settles max 0 max fault (omega arith) some_left (λ m lt. absurd (omega arith))

module _ {A : Type 0} (fn : Tx A) (env : Env) (w : World) where
  -- What a callback that does the same in every attempt leaves.
  abbrev pub Ended : Result A × World → Type 0
  Ended (ok a, w') = (s : State) × (fn env (begin w) ≡ (ok a, s)) × (w' ≡ commit env s w)
  Ended (err e, w') =
      (w' ≡ w)
      ⊎ ((a : A) × (s : State) × (fn env (begin w) ≡ (ok a, s)) × (w' ≡ record w { db = s.db }))

  ended : (max : ℕ) {o : Result A × World} → Settles (λ _. fn) env w max o → Ended o
  ended max (committed n a s lt before time ran) = (s, ran, refl)
  ended max (doubtful n a s lt before fate ran) = inr (a, s, ran, refl)
  ended max (refused n e lt before f end) = inl refl

  pub with_transaction-Ended : Ended (with_transaction fn env w)
  unfolding with_transaction
  with_transaction-Ended = ended 3 (with_attempts-Settles (λ _. fn) env w 3 (λ e. omega (arith, e)))

  pub with_read_transaction-Ended : Ended (with_read_transaction fn env w)
  unfolding with_read_transaction
  with_read_transaction-Ended =
      ended 1 (with_attempts-Settles (λ _. fn) env w 1 (λ e. omega (arith, e)))

  attempt_runs :
      (f : Fate) (o : Result A × State)
      → IsPunctual env 0
      → env.fate 0 ≡ f
      → fn env (begin w) ≡ o
      → attempt (λ _. fn) 0 env w ≡ conclude f env w o
  unfolding attempt
  attempt_runs f o t e h = rw (t, e, h) refl

  pub with_transaction_ok :
      (a : A) (s : State)
      → InTime env 0
      → fn env (begin w) ≡ (ok a, s)
      → with_transaction fn env w ≡ (ok a, commit env s w)
  unfolding with_transaction
  with_transaction_ok a s t h =
      rw (attempt_runs answered (ok a, s) t.0 t.1 h, attempts)
        (ap {B = Result A × World} (λ (o : Result A × World). (ok a, o.1))
          (attempt_runs answered (ok a, s) t.0 t.1 h))

  -- A final error is thrown at once, and nothing has changed.
  pub with_transaction_err :
      (e : AppError) (s : State)
      → InTime env 0
      → is_retryable e ≡ false
      → fn env (begin w) ≡ (err e, s)
      → with_transaction fn env w ≡ (err e, w)
  unfolding with_transaction
  with_transaction_err e s t f h =
      rw (attempt_runs answered (err e, s) t.0 t.1 h, attempts)
        (rw f (
          ap {B = Result A × World} (λ (o : Result A × World). (err e, o.1))
            (attempt_runs answered (err e, s) t.0 t.1 h)))

  -- Where the answer to the COMMIT is lost, the call throws, and the database is committed.
  pub with_transaction_lost :
      (a : A) (s : State)
      → IsPunctual env 0
      → env.fate 0 ≡ unanswered
      → fn env (begin w) ≡ (ok a, s)
      → with_transaction fn env w ≡ (err fault, record w { db = s.db })
  unfolding with_transaction is_retryable
  with_transaction_lost a s t e h =
      rw (attempt_runs unanswered (ok a, s) t e h, attempts)
        (ap {B = Result A × World} (λ (o : Result A × World). (err fault, o.1))
          (attempt_runs unanswered (ok a, s) t e h))

  pub with_read_transaction_ok :
      (a : A) (s : State)
      → InTime env 0
      → fn env (begin w) ≡ (ok a, s)
      → with_read_transaction fn env w ≡ (ok a, commit env s w)
  unfolding with_read_transaction
  with_read_transaction_ok a s t h =
      rw (attempt_runs answered (ok a, s) t.0 t.1 h, attempts)
        (ap {B = Result A × World} (λ (o : Result A × World). (ok a, o.1))
          (attempt_runs answered (ok a, s) t.0 t.1 h))
