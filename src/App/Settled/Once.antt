-- ===== src/App/Settled/Once.antt =====
-- An occurrence is paid once.
use pstu_hackathon.Base.{ℕ, ◌<◌, List, arith, ==_eq, ◌≡◌, refl, subst, sym, false, none, some, []}
use pstu_hackathon.Base.Table.{find, first_where-All, first_where-holds}
use pstu_hackathon.Platform.Schema.{Occurrence, OccurrenceStatus, Schedule}
use pstu_hackathon.Platform.Action.{Env, ok, err, Result}
use pstu_hackathon.Platform.Action.Yields.{After}
use pstu_hackathon.Platform.Transaction.{World, begin, commit, with_transaction}
use pstu_hackathon.Platform.Transaction.Attempts.{Ended, with_transaction-Ended}
use pstu_hackathon.Transfer.Steady.{OnWorld, db-run_hooks}
use pstu_hackathon.Schedule.Occurrences.{
  is_open, is_occurrence, find_occurrence, claim_occurrence_found, claim_occurrence,
}
use pstu_hackathon.Schedule.Repo.{schedule_key}
use pstu_hackathon.Schedule.Run.{RunOutcome, run_schedule_tx, run_schedule}
use pstu_hackathon.Schedule.Steady.{run_schedule-Keeps}
use pstu_hackathon.App.{Reaches}
use pstu_hackathon.App.Tables.{OnTables, OnTables-Steady}
use pstu_hackathon.App.Settled.{settled_final}
use pstu_hackathon.App.Settled.Proper.{IsProper, IsProper-Grows, IsProper-ScheduleSteady}
use pstu_hackathon.App.Settled.Paid.{PaidAfter, IsPaid, run_schedule_tx-IsPaid}

module _ (id : ℕ) (s : Schedule) (env : Env) (w : World) where
  returned :
      (o : Result RunOutcome × World)
      → find schedule_key id w.db.scheduled_transfers ≡ some s
      → Ended (run_schedule_tx id) env w o
      → After (λ out v. PaidAfter s.id s.next_run_at out (begin v)) o
  unfolding commit
  returned (err e, w') h how = tt
  returned (ok out, w') h (st, did, e) = λ k.
      subst (λ v. OnTables (IsPaid s.id s.next_run_at) (begin v)) (sym e)
        (subst (λ db. OnTables (IsPaid s.id s.next_run_at) (record { db = db; hooks = [] }))
          (sym (db-run_hooks env st.hooks (record w { db = st.db })))
          ((subst (After (PaidAfter s.id s.next_run_at)) did
              (run_schedule_tx-IsPaid id s env (begin w) h))
            k))

  run_schedule-IsPaid :
      (w' : World)
      → find schedule_key id w.db.scheduled_transfers ≡ some s
      → run_schedule id env w ≡ (ok RunOutcome.paid, w')
      → OnWorld (OnTables (IsPaid s.id s.next_run_at)) w'
  unfolding run_schedule
  run_schedule-IsPaid w' h e =
      subst (After (λ out v. PaidAfter s.id s.next_run_at out (begin v))) e
        (returned (with_transaction (run_schedule_tx id) env w) h
          (with_transaction-Ended (run_schedule_tx id) env w))
        refl

  run_schedule-IsProper :
      (w' : World)
      → OnWorld (OnTables IsProper) w
      → run_schedule id env w ≡ (ok RunOutcome.paid, w')
      → OnWorld (OnTables IsProper) w'
  run_schedule-IsProper w' proper e =
      subst (λ (o : Result RunOutcome × World). OnWorld (OnTables IsProper) o.1) e
        ((run_schedule-Keeps (OnTables-Steady IsProper-Grows) IsProper-ScheduleSteady id).at env w
          proper)

  is_this :
      (o : Occurrence) (os : List Occurrence)
      → find_occurrence s.id s.next_run_at os ≡ some o
      → (o.schedule_id ≡ s.id) × (o.due_at ≡ s.next_run_at)
  is_this o os found =
      let hit = first_where-holds (is_occurrence s.id s.next_run_at) os found in
      (
        ==_eq o.schedule_id s.id (ground (arith, hit)),
        ==_eq o.due_at s.next_run_at (ground (arith, hit)),
      )

  moved :
      {a b c d : ℕ} (o : Occurrence) (os : List Occurrence)
      → a ≡ c
      → b ≡ d
      → find_occurrence a b os ≡ some o
      → find_occurrence c d os ≡ some o
  moved {b = b} {c = c} o os e k h =
      subst (λ x. find_occurrence c x os ≡ some o) k
        (subst (λ x. find_occurrence x b os ≡ some o) e h)

  paid_still :
      (w' v : World) (o : Occurrence)
      → OnWorld (OnTables IsProper) w'
      → find_occurrence s.id s.next_run_at w'.db.schedule_occurrences ≡ some o
      → is_open o.status ≡ false
      → Reaches w' v
      → find_occurrence s.id s.next_run_at v.db.schedule_occurrences ≡ some o
  paid_still w' v o proper found over reached =
      let (schedule, due) = is_this o w'.db.schedule_occurrences found in
      moved o v.db.schedule_occurrences schedule due (
        settled_final o over reached proper.0
          (first_where-All (λ x. x.id < w'.db.next_id) (is_occurrence s.id s.next_run_at)
            w'.db.schedule_occurrences proper.1 found)
          (moved o w'.db.schedule_occurrences (sym schedule) (sym due) found))

  -- Where a run of a schedule has returned `paid`, in a database whose occurrences have unique identifiers
  -- that have all been given out, then after any further calls of anybody the occurrence that was due is
  -- PAID, and to claim it again finds nothing to pay and changes nothing.
  pub paid_once :
      (w' v : World) (later : Env)
      → OnWorld (OnTables IsProper) w
      → find schedule_key id w.db.scheduled_transfers ≡ some s
      → run_schedule id env w ≡ (ok RunOutcome.paid, w')
      → Reaches w' v
      → (o : Occurrence) × (find_occurrence s.id s.next_run_at v.db.schedule_occurrences ≡ some o)
        × (o.status ≡ OccurrenceStatus.paid)
        × (claim_occurrence s.id s.next_run_at later (begin v) ≡ (ok none, begin v))
  unfolding claim_occurrence claim_occurrence_found
  paid_once w' v later proper there paid reached =
      let (o, found, done) = run_schedule-IsPaid w' there paid in
      let over : is_open o.status ≡ false = rw done refl in
      let still = paid_still w' v o (run_schedule-IsProper w' proper paid) found over reached in
      (o, still, done, rw (still, over) refl)
