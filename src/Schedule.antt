-- ===== src/Schedule.antt =====
-- backend/src/modules/schedules/schedule.service.ts: what a user writes down; nothing here moves money.
pub mod Repo
pub mod Occurrences
pub mod Run
pub mod Tick
pub mod Duplicate
pub mod Steady
pub mod Aside
use pstu_hackathon.Base.{
  ℕ, ◌*◌, Bool, true, false, not, Option, none, some, ltb, ◌==◌, if◌then◌else◌,
}
use pstu_hackathon.Base.Int.{ℤ, pos, ltb_ℤ}
use pstu_hackathon.Shared.Text.{Text}
use pstu_hackathon.Shared.Money.{money}
use pstu_hackathon.Platform.Errors.{ErrorCode, failure}
use pstu_hackathon.Platform.Schema.{
  User, Schedule, ScheduleStatus, IntervalKind, AggregateType, AuditAction,
}
use pstu_hackathon.Platform.Database.{Body, ScheduleDto, Party}
use pstu_hackathon.Platform.Action.{Env, Tx, pure, or_throw, ask, throw_if, ◌>>=◌, ◌>>◌}
use pstu_hackathon.Platform.Transaction.{Handler, with_transaction}
use pstu_hackathon.Platform.Outbox.{insert_audit_log}
use pstu_hackathon.Platform.Idempotency.{complete_idempotency_key}
use pstu_hackathon.Platform.Canonical.{Json, hash_request, codes}
use pstu_hackathon.Auth.Pin.{verify_pin}
use pstu_hackathon.Transfer.{Outcome, idempotently, active_payee}
use pstu_hackathon.Transfer.Repo.{find_payee_by_phone, find_user_by_id}
use pstu_hackathon.Request.{party}
use Repo.{NewSchedule, insert_schedule, find_schedule, Change, changed_status, transition_schedule}

-- `start_at` is a Date: milliseconds.
pub record CreateScheduleInput : Type 0 where
  pub to_phone : ℕ
  pub amount_minor : ℤ
  pub pin : Text
  pub note : Option Text
  pub interval_kind : IntervalKind
  pub start_at : ℕ
  pub total_runs : Option ℕ

abbrev pub create_endpoint : Text
create_endpoint = codes "POST /api/v1/schedules"

-- The instant of the next run means nothing once the schedule has ended.
abbrev pub shown_run : ScheduleStatus → ℕ → Option ℕ
shown_run ScheduleStatus.active at = some at
shown_run ScheduleStatus.paused at = some at
shown_run ScheduleStatus.completed at = none
shown_run ScheduleStatus.cancelled at = none

unfoldable pub to_dto : Schedule → Party → ScheduleDto
to_dto s payee = record {
  id = s.id;
  status = s.status;
  interval_kind = s.interval_kind;
  amount = money s.amount_minor;
  note = s.note;
  payee = payee;
  next_run_at = shown_run s.status s.next_run_at;
  remaining_runs = s.remaining_runs;
  last_run_at = s.last_run_at;
  created_at = s.created_at;
}

-- `intervalKind === 'ONCE' ? 1 : (totalRuns ?? null)`
abbrev pub runs_of : IntervalKind → Option ℕ → Option ℕ
runs_of IntervalKind.once total = some 1
runs_of IntervalKind.daily total = total
runs_of IntervalKind.weekly total = total
runs_of IntervalKind.monthly total = total

unfoldable pub schedule_claimed : ℕ → CreateScheduleInput → ℕ → Tx Outcome
unfolding to_dto
schedule_claimed owner input claim_id = do
  found ← find_payee_by_phone input.to_phone
  payee ← or_throw (active_payee found) (failure ErrorCode.not_found)
  throw_if (payee.user_id == owner) (failure ErrorCode.self_transfer)
  created ← insert_schedule (record {
    owner_user_id = owner;
    payee_user_id = payee.user_id;
    amount_minor = input.amount_minor;
    note = input.note;
    interval_kind = input.interval_kind;
    start_at = input.start_at * 1000;
    remaining_runs = runs_of input.interval_kind input.total_runs;
  })
  insert_audit_log (record {
    actor_user_id = some owner;
    action = AuditAction.schedule_created;
    entity_type = AggregateType.scheduled_transfer;
    entity_id = created.id;
  })
  let counterparty : Party = record { name = payee.name; phone = some payee.phone }
  let body = Body.schedule_body (to_dto created counterparty)
  complete_idempotency_key claim_id 201 body
  pure (record { status = 201; body = body; replayed = false })

unfoldable pub create_schedule : ℕ → ℕ → CreateScheduleInput → Json → Handler Outcome
unfolding schedule_claimed
create_schedule owner key input raw_body = do
  verify_pin owner input.pin
  env ← ask
  throw_if (ltb_ℤ input.amount_minor (pos env.config.min_transfer_minor))
      (failure ErrorCode.validation_error)
  throw_if (ltb_ℤ (pos env.config.max_transfer_minor) input.amount_minor)
      (failure ErrorCode.limit_exceeded)
  throw_if (ltb input.start_at env.date_now) (failure ErrorCode.validation_error)
  with_transaction (
      idempotently owner key (hash_request env create_endpoint raw_body)
        (schedule_claimed owner input))

abbrev pub same_status : Change → ScheduleStatus → Bool
same_status Change.pause ScheduleStatus.paused = true
same_status Change.resume ScheduleStatus.active = true
same_status Change.cancel ScheduleStatus.cancelled = true
same_status change status = false

-- the schedule, if it is this user's
abbrev pub owned_by : ℕ → Option Schedule → Option Schedule
owned_by owner none = none
owned_by owner (some s) = if s.owner_user_id == owner then some s else none

-- Nothing was updated: to ask for the state it is in is success.
unfoldable pub unchanged : ℕ → ℕ → Change → Tx ScheduleDto
unchanged owner id change = do
  row ← find_schedule id
  existing ← or_throw (owned_by owner row) (failure ErrorCode.not_found)
  throw_if (not (same_status change existing.status)) (failure ErrorCode.invalid_state)
  payee ← find_user_by_id existing.payee_user_id
  pure (to_dto existing (party payee))

unfoldable pub announce_change : ℕ → Change → Schedule → Tx ScheduleDto
announce_change owner change s = do
  insert_audit_log (record {
    actor_user_id = some owner;
    action = AuditAction.schedule_changed (changed_status change);
    entity_type = AggregateType.scheduled_transfer;
    entity_id = s.id;
  })
  payee ← find_user_by_id s.payee_user_id
  pure (to_dto s (party payee))

abbrev pub on_change : ℕ → ℕ → Change → Option Schedule → Tx ScheduleDto
on_change owner id change none = unchanged owner id change
on_change owner id change (some s) = announce_change owner change s

unfoldable pub change_schedule_tx : ℕ → ℕ → Change → Tx ScheduleDto
unfolding unchanged announce_change
change_schedule_tx owner id change = do
  updated ← transition_schedule id owner change
  on_change owner id change updated

-- `transition`: `pauseSchedule`, `resumeSchedule` and `cancelSchedule`
unfoldable pub change_schedule : ℕ → ℕ → Change → Handler ScheduleDto
unfolding change_schedule_tx
change_schedule owner id change = with_transaction (change_schedule_tx owner id change)
