-- ===== src/Tests/Schedules.antt =====
-- A schedule that is due on the small database, and one whose occurrence has been settled.
use pstu_hackathon.Base.{ℕ, ◌≡◌, ◌≢◌, refl, true, some, none, arith, List, [], ◌∷◌}
use pstu_hackathon.Base.Int.{pos, ◌+ℤ◌, ◌-ℤ◌}
use pstu_hackathon.Platform.Schema.{
  Schedule, ScheduleStatus, IntervalKind, Occurrence, OccurrenceStatus,
}
use pstu_hackathon.Base.Table.{find}
use pstu_hackathon.Platform.Action.{ok}
use pstu_hackathon.Platform.Transaction.{World, begin}
use pstu_hackathon.Schedule.Occurrences.{find_occurrence, claim_occurrence}
use pstu_hackathon.Schedule.Repo.{Change, schedule_key}
use pstu_hackathon.Schedule.Run.{RunOutcome, run_schedule}
use pstu_hackathon.Schedule.Duplicate.{IsPassedOver, run_schedule_duplicate}
use pstu_hackathon.App.{Call, perform, here, after}
use pstu_hackathon.App.Settled.Once.{paid_once}
use pstu_hackathon.Tests.Example.{env, world}

abbrev rent : Schedule
rent = record {
  id = 70;
  owner_user_id = 20;
  payee_user_id = 30;
  amount_minor = pos 500;
  note = none;
  interval_kind = IntervalKind.monthly;
  next_run_at = 900_000;
  remaining_runs = some 3;
  status = ScheduleStatus.active;
  last_run_at = none;
  retry_after = none;
  created_at = 1;
}

abbrev due_world : World
due_world = record world {
  db = record world.db { scheduled_transfers = rent ∷ []; schedule_occurrences = [] };
}

abbrev paid_world : World
paid_world = (run_schedule 70 env due_world).1

rent_paid : run_schedule 70 env due_world ≡ (ok RunOutcome.paid, paid_world)
unfolding pstu_hackathon.Platform.Action.◌>>=◌ pstu_hackathon.Ledger.post_double_entry
    pstu_hackathon.Ledger.lock_account_pair pstu_hackathon.Ledger.move_locked
    pstu_hackathon.Ledger.rethrow pstu_hackathon.Ledger.update_balance pstu_hackathon.Base.Int.◌+ℤ◌
    pstu_hackathon.Ledger.record_movement pstu_hackathon.Platform.Transaction.with_transaction
    pstu_hackathon.Platform.Transaction.attempt
    pstu_hackathon.Transfer.Repo.find_account_id_for_user
    pstu_hackathon.Transfer.Repo.find_payee_by_phone pstu_hackathon.Transfer.Repo.outbound_in_window
    pstu_hackathon.Base.Int.◌-ℤ◌ pstu_hackathon.Ledger.Reference.base32
    pstu_hackathon.Ledger.Reference.chunk pstu_hackathon.Ledger.Reference.generate_reference
    pstu_hackathon.Ledger.Reference.suffix pstu_hackathon.Ledger.after_commit
    pstu_hackathon.Ledger.insert_movement pstu_hackathon.Ledger.lock_account
    pstu_hackathon.Ledger.next_reference pstu_hackathon.Ledger.translate
    pstu_hackathon.Platform.Action.ask pstu_hackathon.Platform.Action.continue
    pstu_hackathon.Platform.Action.gets pstu_hackathon.Platform.Action.or_throw
    pstu_hackathon.Platform.Action.pure pstu_hackathon.Platform.Action.throw
    pstu_hackathon.Platform.Action.throw_if pstu_hackathon.Platform.Action.update
    pstu_hackathon.Platform.Action.when pstu_hackathon.Platform.BalanceCache.write_balance
    pstu_hackathon.Platform.Errors.is_retryable pstu_hackathon.Platform.Outbox.enqueue_event
    pstu_hackathon.Platform.Transaction.attempts pstu_hackathon.Platform.Transaction.commit
    pstu_hackathon.Platform.Transaction.run_hook pstu_hackathon.Platform.Transaction.run_hooks
    pstu_hackathon.Platform.Transaction.track_all pstu_hackathon.Platform.Transaction.with_attempts
    pstu_hackathon.Shared.Text.decimal pstu_hackathon.Shared.Text.to_string
    pstu_hackathon.Transfer.Repo.find_payee pstu_hackathon.Transfer.Repo.outbound_sum
    pstu_hackathon.Schedule.Run.pay pstu_hackathon.Schedule.Run.savepoint
    pstu_hackathon.Schedule.Run.is_transient pstu_hackathon.Schedule.Run.skip
    pstu_hackathon.Schedule.Run.record_payment pstu_hackathon.Schedule.Run.give_up
    pstu_hackathon.Schedule.Run.record_failure pstu_hackathon.Schedule.Run.attempt_payment
    pstu_hackathon.Schedule.Run.run_occurrence pstu_hackathon.Schedule.Run.run_claimed
    pstu_hackathon.Schedule.Run.run_schedule_tx pstu_hackathon.Schedule.Run.run_schedule
    pstu_hackathon.Schedule.Repo.claim_due_schedule pstu_hackathon.Schedule.Repo.update_schedule
    pstu_hackathon.Schedule.Repo.advanced pstu_hackathon.Schedule.Repo.advance_schedule
    pstu_hackathon.Schedule.Repo.defer_schedule pstu_hackathon.Schedule.Occurrences.claim_occurrence
    pstu_hackathon.Schedule.Occurrences.claim_occurrence_found
    pstu_hackathon.Schedule.Occurrences.settle_occurrence
rent_paid = refl

abbrev resumed : World
resumed = perform (Call.changing 20 70 Change.pause) env paid_world

paid_once_example :
    (o : Occurrence) × (find_occurrence 70 900_000 resumed.db.schedule_occurrences ≡ some o)
    × (o.status ≡ OccurrenceStatus.paid)
    × (claim_occurrence 70 900_000 env (begin resumed) ≡ (ok none, begin resumed))
paid_once_example =
    paid_once 70 rent env due_world paid_world resumed env (tt, tt) refl rent_paid
      (after paid_world (Call.changing 20 70 Change.pause) env here)

abbrev skipped_rent : Occurrence
skipped_rent = record {
  id = 71;
  schedule_id = 70;
  due_at = 900_000;
  status = OccurrenceStatus.skipped;
  transfer_id = none;
  attempts = 1;
}

abbrev stuck_world : World
stuck_world = record due_world {
  db = record due_world.db { schedule_occurrences = skipped_rent ∷ [] };
}

run_schedule_duplicate_example :
    (s' : Schedule) × (ss : List Schedule) × (run_schedule 70 env stuck_world ≡ (
      ok RunOutcome.duplicate,
      record stuck_world { db = record stuck_world.db { scheduled_transfers = ss } },
    ))
    × (find schedule_key 70 ss ≡ some s')
    × (find schedule_key 72 ss ≡ find schedule_key 72 stuck_world.db.scheduled_transfers)
    × IsPassedOver IntervalKind.monthly env rent s'
    × (run_schedule 70 env (run_schedule 70 env stuck_world).1
        ≡ (ok RunOutcome.not_claimed, (run_schedule 70 env stuck_world).1))
run_schedule_duplicate_example =
    run_schedule_duplicate 70 72 rent skipped_rent env env stuck_world refl refl runs_are_left refl
      refl (refl, refl) (omega arith) (refl, refl) (λ e. omega (arith, e))
  where
    runs_are_left : rent.remaining_runs ≢ some 0
    runs_are_left e = cc
