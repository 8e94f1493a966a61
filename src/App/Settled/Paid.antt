-- ===== src/App/Settled/Paid.antt =====
-- A run that pays leaves its occurrence PAID.
use pstu_hackathon.Base.{
  Bool, ℕ, ◌≡◌, ◌≢◌, refl, Bool-cases, inl, inr, none, some, Option, List, ==_self, ◌∙◌,
}
use pstu_hackathon.Base.Table.{first_where-modify, find, modify}
use pstu_hackathon.Platform.Schema.{
  IntervalKind, Transfer, MoneyRequest, Occurrence, OccurrenceStatus, Schedule,
}
use pstu_hackathon.Platform.Errors.{AppError}
use pstu_hackathon.Platform.Action.{Env, State, Result, ok, err, Tx, Action, pure, ◌>>=◌, continue}
use pstu_hackathon.Platform.Action.Keeps.{Keeps, keeps_rules}
use pstu_hackathon.Platform.Action.Yields.{
  After, Yields, ask-Yields, bind-Yields, then-Yields, Keeps-Yields, from-Yields, if-Yields,
}
use pstu_hackathon.Schedule.Occurrences.{
  is_open, is_occurrence, new_occurrence, find_occurrence, occurrence_key, settle, Settlement,
  try_again, ClaimedOccurrence, claim_occurrence_found, claim_occurrence, settle_occurrence,
}
use pstu_hackathon.Schedule.Repo.{
  is_due, schedule_key, claim_due_schedule, advance_schedule, update_schedule,
}
use pstu_hackathon.Schedule.Run.{
  run_schedule_tx, RunOutcome, skip, record_payment, give_up, record_failure, on_payment,
  attempt_payment, run_occurrence, run_claimed,
}
use pstu_hackathon.Schedule.Steady.{pay-Keeps, savepoint-Keeps}
use pstu_hackathon.Ledger.{PostedTransfer}
use pstu_hackathon.Ledger.Steady.{enqueue_event-Keeps}
use pstu_hackathon.App.Tables.{Grows, OnTables, OnTables-Steady}

nothing-Keeps : {S A : Type 0} (m : Action S A) → Keeps (λ s. Unit) m
nothing-Keeps m = record { at = λ e s h. tt }

module _ (schedule due : ℕ) where
  -- the occurrence has a row with this identifier
  abbrev Has : ℕ → ℕ → List Transfer → List MoneyRequest → List Occurrence → Type 0
  Has id n ts rs os = (x : Occurrence) × (find_occurrence schedule due os ≡ some x) × (x.id ≡ id)

  abbrev pub IsPaid : ℕ → List Transfer → List MoneyRequest → List Occurrence → Type 0
  IsPaid n ts rs os =
      (x : Occurrence) × (find_occurrence schedule due os ≡ some x)
      × (x.status ≡ OccurrenceStatus.paid)

  Has-Grows : (id : ℕ) → Grows (Has id)
  Has-Grows id = record { later = λ le h. h; posted = λ c reference now h. h }

  IsPaid-Grows : Grows IsPaid
  IsPaid-Grows = record { later = λ le h. h; posted = λ c reference now h. h }

  abbrev pub PaidAfter : RunOutcome → State → Type 0
  PaidAfter out s = out ≡ RunOutcome.paid → OnTables IsPaid s

  settled_paid :
      (id transfer : ℕ) (os : List Occurrence) (x : Occurrence)
      → find_occurrence schedule due os ≡ some x
      → x.id ≡ id
      → find_occurrence schedule due
          (modify occurrence_key id (settle (Settlement.paid transfer)) os)
        ≡ some (settle (Settlement.paid transfer) x)
  settled_paid id transfer os x h e =
      first_where-modify occurrence_key (is_occurrence schedule due) id _ os (λ y. refl) h
      ∙ rw (e, ==_self id) refl

  advance_schedule-Keeps :
      (id : ℕ) (kind : IntervalKind) (consume : Bool)
      → Keeps (OnTables IsPaid) (advance_schedule id kind consume)
  unfolding advance_schedule update_schedule
  advance_schedule-Keeps id kind consume = record { at = λ env s h. h }

  paid_now :
      (id transfer : ℕ) (env : Env) (st : State)
      → OnTables (Has id) st
      → OnTables IsPaid (settle_occurrence id (Settlement.paid transfer) env st).1
  unfolding settle_occurrence
  paid_now id transfer env st (x, found, same) = (
    settle (Settlement.paid transfer) x,
    settled_paid id transfer st.db.schedule_occurrences x found same,
    refl,
  )

  record_payment-IsPaid :
      (s : Schedule) (o : ClaimedOccurrence) (t : PostedTransfer) (env : Env)
      → Yields env (OnTables (Has o.id)) PaidAfter (record_payment s o t)
  unfolding record_payment
  record_payment-IsPaid s o t env =
      let b = OnTables-Steady IsPaid-Grows in
      then-Yields {R = OnTables IsPaid} _ _ (paid_now o.id t.id env) (λ u.
        Keeps-Yields _ (λ out st h e. h)
          (search (keeps_rules, advance_schedule-Keeps, enqueue_event-Keeps) depth 24))

  -- what does not return `paid`
  other :
      {P : State → Type 0} (out : RunOutcome) (env : Env)
      → out ≢ RunOutcome.paid
      → Yields env P PaidAfter (pure out)
  unfolding pure
  other out env ne = record { at = λ st h e. absurd (ne e) }

  then_other :
      {A : Type 0} (m : Tx A) (f : A → Tx RunOutcome) (env : Env)
      → ((a : A) → Yields env (λ s. Unit) PaidAfter (f a))
      → Yields env (λ s. Unit) PaidAfter (m >>= f)
  then_other m f env k = bind-Yields m f (nothing-Keeps m) k

  skip-IsPaid :
      (s : Schedule) (o : ClaimedOccurrence) (env : Env)
      → Yields env (λ s. Unit) PaidAfter (skip s o)
  unfolding skip
  skip-IsPaid s o env = then_other _ _ env (λ a.
      then_other _ _ env (λ b. then_other _ _ env (λ c. other RunOutcome.skipped env (λ e. cc))))

  give_up-IsPaid :
      (s : Schedule) (o : ClaimedOccurrence) (env : Env)
      → Yields env (λ s. Unit) PaidAfter (give_up s o)
  unfolding give_up
  give_up-IsPaid s o env = then_other _ _ env (λ a.
      then_other _ _ env (λ b. then_other _ _ env (λ c. other RunOutcome.failed env (λ e. cc))))

  record_failure-IsPaid :
      (s : Schedule) (o : ClaimedOccurrence) (e : AppError) (env : Env)
      → Yields env (λ s. Unit) PaidAfter (record_failure s o e)
  unfolding record_failure
  record_failure-IsPaid s o e env = ask-Yields _ (
      if-Yields _ _ _ (then_other _ _ env (λ a. other RunOutcome.deferred env (λ k. cc)))
        (give_up-IsPaid s o env))

  on_payment-IsPaid :
      (s : Schedule) (o : ClaimedOccurrence) (r : Result PostedTransfer) (env : Env)
      → Yields env (OnTables (Has o.id)) PaidAfter (on_payment s o r)
  on_payment-IsPaid s o (ok t) env = record_payment-IsPaid s o t env
  on_payment-IsPaid s o (err e) env = from-Yields _ (λ st h. tt) (record_failure-IsPaid s o e env)

  attempt_payment-IsPaid :
      (s : Schedule) (o : ClaimedOccurrence) (env : Env)
      → Yields env (OnTables (Has o.id)) PaidAfter (attempt_payment s o)
  unfolding attempt_payment
  attempt_payment-IsPaid s o env =
      let b = OnTables-Steady (Has-Grows o.id) in
      bind-Yields _ _ (savepoint-Keeps b _ (pay-Keeps b s)) (λ r. on_payment-IsPaid s o r env)

  run_some-IsPaid :
      (s : Schedule) (o : ClaimedOccurrence) (env : Env)
      → Yields env (OnTables (Has o.id)) PaidAfter (run_occurrence s (some o))
  unfolding run_occurrence
  run_some-IsPaid s o env = ask-Yields _ (
      if-Yields _ _ _ (from-Yields _ (λ st h. tt) (skip-IsPaid s o env))
        (attempt_payment-IsPaid s o env))

  run_none-IsPaid :
      (s : Schedule) (env : Env) → Yields env (λ s. Unit) PaidAfter (run_occurrence s none)
  unfolding run_occurrence
  run_none-IsPaid s env = then_other _ _ env (λ a. other RunOutcome.duplicate env (λ k. cc))

  ran :
      (s : Schedule) (st : State) (x : Option Occurrence) (env : Env)
      → find_occurrence schedule due st.db.schedule_occurrences ≡ x
      → (let o = claim_occurrence_found schedule due x st in
          After PaidAfter (continue o.0 (run_occurrence s) env o.1))
  unfolding claim_occurrence_found continue
  ran s st none env h =
      (run_some-IsPaid s _ env).at _
        (new_occurrence st.db.next_id schedule due, rw (==_self schedule, ==_self due) refl, refl)
  ran s st (some x) env h = elim (Bool-cases (is_open x.status)) [
    | inl p ↦ rw p (
        (run_some-IsPaid s _ env).at _ (
          try_again x,
          first_where-modify occurrence_key (is_occurrence schedule due) x.id try_again
                st.db.schedule_occurrences (λ y. refl) h
              ∙ rw (==_self x.id) refl,
          refl,
        ))
    | inr p ↦ rw p ((run_none-IsPaid s env).at st tt)
  ]

run_claimed-IsPaid :
    (s : Schedule) (env : Env)
    → Yields env (λ s. Unit) (PaidAfter s.id s.next_run_at) (run_claimed (some s))
unfolding run_claimed ◌>>=◌ claim_occurrence
run_claimed-IsPaid s env = record {
  at = λ st h.
      ran s.id s.next_run_at s st (find_occurrence s.id s.next_run_at st.db.schedule_occurrences)
        env refl;
}

-- A transaction that runs this schedule and returns `paid` leaves its occurrence paid.
pub run_schedule_tx-IsPaid :
    (id : ℕ) (s : Schedule) (env : Env) (st : State)
    → find schedule_key id st.db.scheduled_transfers ≡ some s
    → After (PaidAfter s.id s.next_run_at) (run_schedule_tx id env st)
unfolding run_schedule_tx claim_due_schedule ◌>>=◌ continue
run_schedule_tx-IsPaid id s env st h = elim (Bool-cases (is_due env.now s)) [
  | inl p ↦ rw (h, p) ((run_claimed-IsPaid s env).at st tt)
  | inr p ↦ rw (h, p, run_claimed, pure) (λ e. cc)
]
