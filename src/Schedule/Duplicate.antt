-- ===== src/Schedule/Duplicate.antt =====
-- A schedule whose occurrence has been settled moves on without a payment.
use pstu_hackathon.Base.{
  ℕ, ◌<◌, ◌≡◌, ◌≢◌, ap, none, Option, List, ◌==◌, ==_eq, ==_self, ==_ne, Bool-cases, inl, inr,
  arith, ◌&&◌, leb, false, Bool, refl, ◌∙◌, true, some,
}
use pstu_hackathon.Base.Table.{find, modify, find-modify, key-find, apply_if}
use pstu_hackathon.Platform.Schema.{Schedule, Occurrence, IntervalKind, ScheduleStatus}
use pstu_hackathon.Platform.Action.{Env, ok, pure, ◌>>=◌, continue}
use pstu_hackathon.Platform.Action.Steps.{bind_ok}
use pstu_hackathon.Platform.Transaction.{World, begin, commit, run_hooks}
use pstu_hackathon.Platform.Transaction.Attempts.{InTime, with_transaction_ok}
use pstu_hackathon.Schedule.Occurrences.{
  is_open, find_occurrence, claim_occurrence_found, claim_occurrence,
}
use pstu_hackathon.Schedule.Repo.{
  schedule_key, is_active, is_due, claim_due_schedule, next_of, advanced, runs_left, status_after,
  advance_schedule, update_schedule,
}
use pstu_hackathon.Schedule.Run.{
  RunOutcome, run_occurrence, run_claimed, run_schedule_tx, run_schedule,
}

module _ (id : ℕ) (s : Schedule) (o : Occurrence) (env : Env) (w : World) where
  -- the world in which the schedule has moved on, and nothing else has happened
  abbrev moved_on : World
  moved_on = record w {
    db = record w.db {
      scheduled_transfers =
          modify schedule_key s.id (next_of s.interval_kind env false) w.db.scheduled_transfers;
    };
  }

  run_settled :
      find_occurrence s.id s.next_run_at w.db.schedule_occurrences ≡ some o
      → is_open o.status ≡ false
      → run_claimed (some s) env (begin w) ≡ (ok RunOutcome.duplicate, begin moved_on)
  unfolding run_claimed claim_occurrence claim_occurrence_found run_occurrence advance_schedule
      update_schedule ◌>>=◌ continue pure
  run_settled found over = rw (found, over) refl

  run_due :
      find schedule_key id w.db.scheduled_transfers ≡ some s
      → is_due env.now s ≡ true
      → find_occurrence s.id s.next_run_at w.db.schedule_occurrences ≡ some o
      → is_open o.status ≡ false
      → InTime env 0
      → run_schedule id env w ≡ (ok RunOutcome.duplicate, moved_on)
  unfolding run_schedule run_schedule_tx claim_due_schedule commit run_hooks
  run_due there due found over time =
      with_transaction_ok (run_schedule_tx id) env w RunOutcome.duplicate (begin moved_on) time (
        bind_ok (claim_due_schedule id) run_claimed {a = some s} (rw (there, due) refl)
        ∙ run_settled found over)

-- What has become of a schedule that has passed over an occurrence, by its interval. ONCE is over. A
-- repeated one is at its next instant, with the runs that it had, as active as before.
pub record IsRepeated (env : Env) (old new : Schedule) : Type 0 where
  pub next : new.next_run_at ≡ env.add_step old.interval_kind old.next_run_at
  pub runs : new.remaining_runs ≡ old.remaining_runs
  pub status : new.status ≡ old.status
  pub ready : new.retry_after ≡ none

abbrev pub IsPassedOver : IntervalKind → Env → Schedule → Schedule → Type 0
IsPassedOver IntervalKind.once env old new =
    (new.status ≡ ScheduleStatus.completed) × (new.next_run_at ≡ old.next_run_at)
IsPassedOver IntervalKind.daily env old new = IsRepeated env old new
IsPassedOver IntervalKind.weekly env old new = IsRepeated env old new
IsPassedOver IntervalKind.monthly env old new = IsRepeated env old new

module _ (env : Env) (s : Schedule) (left : s.remaining_runs ≢ some 0) where
  same_runs : (r : Option ℕ) → runs_left false r ≡ r
  same_runs none = refl
  same_runs (some n) = refl

  same_status : (r : Option ℕ) → r ≢ some 0 → status_after s.status (runs_left false r) ≡ s.status
  same_status none h = refl
  same_status (some n) h = elim (Bool-cases (n == 0)) [
    | inl none_left ↦ absurd (h (ap some (==_eq n 0 none_left)))
    | inr more ↦ rw more refl
  ]

  advanced-IsRepeated : IsRepeated env s (advanced env false s)
  unfolding advanced
  advanced-IsRepeated = record {
    next = refl;
    runs = same_runs s.remaining_runs;
    status = same_status s.remaining_runs left;
    ready = refl;
  }

  next_of-IsPassedOver : (kind : IntervalKind) → IsPassedOver kind env s (next_of kind env false s)
  next_of-IsPassedOver IntervalKind.once = (refl, refl)
  next_of-IsPassedOver IntervalKind.daily = advanced-IsRepeated
  next_of-IsPassedOver IntervalKind.weekly = advanced-IsRepeated
  next_of-IsPassedOver IntervalKind.monthly = advanced-IsRepeated

module _ (now : ℕ) (env : Env) (s : Schedule)
    (early : now < env.add_step s.interval_kind s.next_run_at) where
  advanced_waits : is_due now (advanced env false s) ≡ false
  unfolding advanced
  advanced_waits =
      rw late (never (is_active (status_after s.status (runs_left false s.remaining_runs))))
    where
      late : leb (env.add_step s.interval_kind s.next_run_at) now ≡ false
      late = ground (arith, early)

      never : (b : Bool) → (b && false) ≡ false
      never true = refl
      never false = refl

  next_of_waits : (kind : IntervalKind) → is_due now (next_of kind env false s) ≡ false
  next_of_waits IntervalKind.once = refl
  next_of_waits IntervalKind.daily = advanced_waits
  next_of_waits IntervalKind.weekly = advanced_waits
  next_of_waits IntervalKind.monthly = advanced_waits

-- A schedule that is not due is not claimed, and nothing changes.
run_waiting :
    (id : ℕ) (s : Schedule) (env : Env) (w : World)
    → find schedule_key id w.db.scheduled_transfers ≡ some s
    → is_due env.now s ≡ false
    → InTime env 0
    → run_schedule id env w ≡ (ok RunOutcome.not_claimed, w)
unfolding run_schedule run_schedule_tx claim_due_schedule run_claimed commit run_hooks pure
run_waiting id s env w there waits time =
    with_transaction_ok (run_schedule_tx id) env w RunOutcome.not_claimed (begin w) time
      (bind_ok (claim_due_schedule id) run_claimed {a = none} (rw (there, waits) refl))

schedule_key-next_of :
    (kind : IntervalKind) (env : Env) (s : Schedule)
    → schedule_key (next_of kind env false s) ≡ schedule_key s
unfolding advanced
schedule_key-next_of IntervalKind.once env s = refl
schedule_key-next_of IntervalKind.daily env s = refl
schedule_key-next_of IntervalKind.weekly env s = refl
schedule_key-next_of IntervalKind.monthly env s = refl

found_again :
    (id : ℕ) (s : Schedule) (o : Occurrence) (env : Env) (w : World)
    → find schedule_key id w.db.scheduled_transfers ≡ some s
    → find schedule_key id (moved_on id s o env w).db.scheduled_transfers
      ≡ some (next_of s.interval_kind env false s)
found_again id s o env w there =
    find-modify schedule_key id s.id (next_of s.interval_kind env false) w.db.scheduled_transfers
      (λ t. schedule_key-next_of s.interval_kind env t)
    ∙ rw (there, key-find schedule_key id s w.db.scheduled_transfers there, ==_self id) refl

-- Other schedules are as they were.
others_kept :
    (id other : ℕ) (s : Schedule) (o : Occurrence) (env : Env) (w : World)
    → find schedule_key id w.db.scheduled_transfers ≡ some s
    → other ≢ id
    → find schedule_key other (moved_on id s o env w).db.scheduled_transfers
      ≡ find schedule_key other w.db.scheduled_transfers
others_kept id other s o env w there another =
    find-modify schedule_key other s.id (next_of s.interval_kind env false) w.db.scheduled_transfers
      (λ t. schedule_key-next_of s.interval_kind env t)
    ∙ rw apart (as_it_was (find schedule_key other w.db.scheduled_transfers))
  where
    apart : (other == s.id) ≡ false
    apart =
        ==_ne other s.id
          (λ e. another (e ∙ key-find schedule_key id s w.db.scheduled_transfers there))

    as_it_was : (o : Option Schedule) → apply_if false (next_of s.interval_kind env false) o ≡ o
    as_it_was none = refl
    as_it_was (some t) = refl

-- Where a due schedule with runs left is run, whose occurrence has been settled, on a connection that comes
-- back in time, the run returns `duplicate` and changes nothing but the schedule: no money moves. A schedule of
-- kind ONCE is completed. Any other is active as it was, with the runs that it had left, and stands at
-- the instant one step after the one that was due. To run it again before that instant, on a connection
-- that comes back in time, claims nothing and changes nothing.
pub run_schedule_duplicate :
    (id other : ℕ) (s : Schedule) (o : Occurrence) (env later : Env) (w : World)
    → find schedule_key id w.db.scheduled_transfers ≡ some s
    → is_due env.now s ≡ true
    → s.remaining_runs ≢ some 0
    → find_occurrence s.id s.next_run_at w.db.schedule_occurrences ≡ some o
    → is_open o.status ≡ false
    → InTime env 0
    → later.now < env.add_step s.interval_kind s.next_run_at
    → InTime later 0
    → other ≢ id
    → (s' : Schedule) × (ss : List Schedule) × (run_schedule id env w
        ≡ (ok RunOutcome.duplicate, record w { db = record w.db { scheduled_transfers = ss } }))
      × (find schedule_key id ss ≡ some s')
      × (find schedule_key other ss ≡ find schedule_key other w.db.scheduled_transfers)
      × IsPassedOver s.interval_kind env s s'
      × (run_schedule id later (run_schedule id env w).1
          ≡ (ok RunOutcome.not_claimed, (run_schedule id env w).1))
run_schedule_duplicate id other s o env later w there due left found over time early soon another =
    let ran = run_due id s o env w there due found over time in
    let again = found_again id s o env w there in
    let waits = next_of_waits later.now env s early s.interval_kind in
    (
      next_of s.interval_kind env false s,
      (moved_on id s o env w).db.scheduled_transfers,
      ran,
      again,
      others_kept id other s o env w there another,
      next_of-IsPassedOver env s left s.interval_kind,
      rw ran (
          run_waiting id (next_of s.interval_kind env false s) later (moved_on id s o env w) again
            waits soon),
    )
