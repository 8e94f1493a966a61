-- ===== src/Schedule/Run.antt =====
-- backend/src/workers/schedule.worker.ts: paying what is due. Metrics and log lines are left out.
use pstu_hackathon.Base.{
  ℕ, ◌+◌, ◌-◌, ◌*◌, ◌/◌, ◌^◌, Bool, true, false, ◌&&◌, Option, none, some, ltb, if◌then◌else◌,
}
use pstu_hackathon.Base.Int.{pos, ◌+ℤ◌, ltb_ℤ}
use pstu_hackathon.Platform.Errors.{ErrorCode, AppError, domain, pg, fault, failure}
use pstu_hackathon.Platform.Schema.{Schedule, TransferType, EventType, AggregateType}
use pstu_hackathon.Platform.Database.{no_payload}
use pstu_hackathon.Platform.Action.{
  Env, State, Result, ok, err, Tx, pure, or_throw, ask, throw_if, ◌>>=◌, ◌>>◌,
}
use pstu_hackathon.Platform.Transaction.{Handler, with_transaction}
use pstu_hackathon.Platform.Outbox.{enqueue_event}
use pstu_hackathon.Ledger.{PostedTransfer, post_double_entry}
use pstu_hackathon.Transfer.Repo.{find_account_id_for_user, outbound_in_window}
use pstu_hackathon.Schedule.Repo.{claim_due_schedule, advance_schedule, defer_schedule}
use pstu_hackathon.Schedule.Occurrences.{
  ClaimedOccurrence, claim_occurrence, Settlement, settle_occurrence,
}

pub data RunOutcome : Type 0 where
  paid failed deferred skipped duplicate not_claimed : RunOutcome

unfoldable pub pay : Schedule → Tx PostedTransfer
pay s = do
  env ← ask
  from_row ← find_account_id_for_user s.owner_user_id
  to_row ← find_account_id_for_user s.payee_user_id
  from ← or_throw from_row (failure ErrorCode.not_found)
  to ← or_throw to_row (failure ErrorCode.not_found)
  spent ← outbound_in_window from
  throw_if (ltb_ℤ (pos env.config.daily_transfer_limit_minor) (spent +ℤ s.amount_minor))
      (failure ErrorCode.limit_exceeded)
  post_double_entry (record {
    from_account_id = from;
    to_account_id = to;
    amount_minor = s.amount_minor;
    type = TransferType.scheduled;
    note = s.note;
    idempotency_key_id = none;
    reversal_of = none;
  })

-- what the attempt has left, and whether the code goes on with its error
abbrev pub or_rolled_back : {A : Type 0} → State → Result A × State → Result (Result A) × State
or_rolled_back before (ok a, s) = (ok (ok a), s)
or_rolled_back before (err (domain code details), s) =
    (ok (err (domain code details)), record before { hooks = s.hooks })
or_rolled_back before (err (pg state constraint), s) = (err (pg state constraint), s)
or_rolled_back before (err fault, s) = (err fault, s)

-- SAVEPOINT, the attempt, and RELEASE or, after a DomainError, ROLLBACK TO SAVEPOINT. The hooks that
-- the attempt has registered are not among what PostgreSQL rolls back.
unfoldable pub savepoint : {A : Type 0} → Tx A → Tx (Result A)
savepoint m env s = or_rolled_back s (m env s)

-- `lateBy > SCHEDULE_CATCHUP_GRACE_MS`
abbrev pub is_missed : Env → Schedule → Bool
is_missed env s = ltb (s.next_run_at / 1000 + env.config.schedule_catchup_grace_ms) env.date_now

-- RETRYABLE_CODES
unfoldable pub is_transient : AppError → Bool
is_transient (domain ErrorCode.insufficient_funds _) = true
is_transient (domain ErrorCode.limit_exceeded _) = true
is_transient (domain ErrorCode.service_unavailable _) = true
is_transient e = false

unfoldable pub skip : Schedule → ClaimedOccurrence → Tx RunOutcome
skip s o = do
  settle_occurrence o.id Settlement.skipped
  advance_schedule s.id s.interval_kind false
  enqueue_event (record {
    event_type = EventType.schedule_skipped;
    aggregate_type = AggregateType.scheduled_transfer;
    aggregate_id = s.id;
    payload = record no_payload {
      schedule_id = some s.id;
      owner_user_id = some s.owner_user_id;
      amount_minor = some s.amount_minor;
    };
  })
  pure skipped

-- what follows a payment
unfoldable pub record_payment : Schedule → ClaimedOccurrence → PostedTransfer → Tx RunOutcome
record_payment s o transfer = do
  settle_occurrence o.id (Settlement.paid transfer.id)
  advance_schedule s.id s.interval_kind true
  enqueue_event (record {
    event_type = EventType.money_received;
    aggregate_type = AggregateType.transfer;
    aggregate_id = transfer.id;
    payload = record no_payload {
      recipient_user_id = some s.payee_user_id;
      amount_minor = some transfer.amount_minor;
      reference = some transfer.reference;
    };
  })
  enqueue_event (record {
    event_type = EventType.schedule_paid;
    aggregate_type = AggregateType.scheduled_transfer;
    aggregate_id = s.id;
    payload = record no_payload {
      schedule_id = some s.id;
      owner_user_id = some s.owner_user_id;
      amount_minor = some transfer.amount_minor;
      reference = some transfer.reference;
    };
  })
  pure paid

abbrev pub can_retry : Env → AppError → ClaimedOccurrence → Bool
can_retry env e o = is_transient e && ltb o.attempts env.config.schedule_max_attempts

-- SCHEDULE_RETRY_BASE_SECONDS * 2 ** (attempts - 1); the attempts of a claim are at least one.
abbrev pub retry_delay : Env → ClaimedOccurrence → ℕ
retry_delay env o = env.config.schedule_retry_base_seconds * 2 ^ (o.attempts - 1)

unfoldable pub give_up : Schedule → ClaimedOccurrence → Tx RunOutcome
give_up s o = do
  settle_occurrence o.id Settlement.failed
  advance_schedule s.id s.interval_kind false
  enqueue_event (record {
    event_type = EventType.schedule_failed;
    aggregate_type = AggregateType.scheduled_transfer;
    aggregate_id = s.id;
    payload = record no_payload {
      schedule_id = some s.id;
      owner_user_id = some s.owner_user_id;
      amount_minor = some s.amount_minor;
    };
  })
  pure failed

unfoldable pub record_failure : Schedule → ClaimedOccurrence → AppError → Tx RunOutcome
unfolding give_up
record_failure s o e = do
  env ← ask
  if can_retry env e o
      then (do defer_schedule s.id (retry_delay env o); pure deferred)
      else give_up s o

abbrev pub on_payment : Schedule → ClaimedOccurrence → Result PostedTransfer → Tx RunOutcome
on_payment s o (ok transfer) = record_payment s o transfer
on_payment s o (err e) = record_failure s o e

unfoldable pub attempt_payment : Schedule → ClaimedOccurrence → Tx RunOutcome
unfolding pay savepoint record_payment record_failure
attempt_payment s o = do result ← savepoint (pay s); on_payment s o result

unfoldable pub run_occurrence : Schedule → Option ClaimedOccurrence → Tx RunOutcome
unfolding skip attempt_payment
run_occurrence s none = do advance_schedule s.id s.interval_kind false; pure duplicate
run_occurrence s (some o) = do env ← ask; if is_missed env s then skip s o else attempt_payment s o

unfoldable pub run_claimed : Option Schedule → Tx RunOutcome
unfolding run_occurrence
run_claimed none = pure not_claimed
run_claimed (some s) = do
  occurrence ← claim_occurrence s.id s.next_run_at
  run_occurrence s occurrence

unfoldable pub run_schedule_tx : ℕ → Tx RunOutcome
unfolding run_claimed
run_schedule_tx id = do schedule ← claim_due_schedule id; run_claimed schedule

unfoldable pub run_schedule : ℕ → Handler RunOutcome
unfolding run_schedule_tx
run_schedule id = with_transaction (run_schedule_tx id)
