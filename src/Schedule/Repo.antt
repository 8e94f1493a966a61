-- ===== src/Schedule/Repo.antt =====
-- backend/src/modules/schedules/schedule.repo.ts: the table of schedules.
use pstu_hackathon.Base.{
  ℕ, ◌+◌, ◌-◌, ◌*◌, Bool, true, false, ◌&&◌, Option, none, some, List, ◌∷◌, ltb, leb, ◌==◌, map,
  if◌then◌else◌,
}
use pstu_hackathon.Base.Int.{ℤ}
use pstu_hackathon.Base.Table.{find, modify, select_where, sort_by, take}
use pstu_hackathon.Shared.Text.{Text}
use pstu_hackathon.Platform.Schema.{Schedule, ScheduleStatus, IntervalKind}
use pstu_hackathon.Platform.Action.{Env, State, Result, ok, Tx, gets}

abbrev pub schedule_key : Schedule → ℕ
schedule_key s = s.id

pub record NewSchedule : Type 0 where
  pub owner_user_id : ℕ
  pub payee_user_id : ℕ
  pub amount_minor : ℤ
  pub note : Option Text
  pub interval_kind : IntervalKind
  pub start_at : ℕ
  pub remaining_runs : Option ℕ

abbrev pub schedule_row : NewSchedule → ℕ → ℕ → Schedule
schedule_row n id now = record {
  id = id;
  owner_user_id = n.owner_user_id;
  payee_user_id = n.payee_user_id;
  amount_minor = n.amount_minor;
  note = n.note;
  interval_kind = n.interval_kind;
  next_run_at = n.start_at;
  remaining_runs = n.remaining_runs;
  status = ScheduleStatus.active;
  last_run_at = none;
  retry_after = none;
  created_at = now;
}

unfoldable pub insert_schedule : NewSchedule → Tx Schedule
insert_schedule n env s =
    let row = schedule_row n s.db.next_id env.now in
    (
      ok row,
      record s {
        db = record s.db {
          next_id = s.db.next_id + 1;
          scheduled_transfers = row ∷ s.db.scheduled_transfers;
        };
      },
    )

unfoldable pub find_schedule : ℕ → Tx (Option Schedule)
find_schedule id = gets (λ s. find schedule_key id s.db.scheduled_transfers)

abbrev pub is_active : ScheduleStatus → Bool
is_active ScheduleStatus.active = true
is_active ScheduleStatus.paused = false
is_active ScheduleStatus.completed = false
is_active ScheduleStatus.cancelled = false

-- coalesce(retry_after, now()) <= now()
abbrev pub may_retry : ℕ → Option ℕ → Bool
may_retry now none = true
may_retry now (some at) = leb at now

abbrev pub is_due : ℕ → Schedule → Bool
is_due now s = is_active s.status && (leb s.next_run_at now && may_retry now s.retry_after)

unfoldable pub due_schedules : ℕ → ℕ → List Schedule → List Schedule
unfolding sort_by
due_schedules now limit ss =
    take limit (sort_by (λ (s : Schedule). s.next_run_at) (select_where (is_due now) ss))

-- `findDueScheduleIds`
unfoldable pub find_due_schedule_ids : ℕ → Tx (List ℕ)
unfolding due_schedules
find_due_schedule_ids limit env s =
    (ok (map schedule_key (due_schedules env.now limit s.db.scheduled_transfers)), s)

abbrev pub if_due : ℕ → Option Schedule → Option Schedule
if_due now none = none
if_due now (some s) = if is_due now s then some s else none

-- SELECT … FOR UPDATE SKIP LOCKED
unfoldable pub claim_due_schedule : ℕ → Tx (Option Schedule)
claim_due_schedule id env s =
    (ok (if_due env.now (find schedule_key id s.db.scheduled_transfers)), s)

-- UPDATE scheduled_transfers SET … WHERE id = $1
unfoldable pub update_schedule : ℕ → (Schedule → Schedule) → Tx (Unit {0})
update_schedule id f env s = (
  ok tt,
  record s {
    db = record s.db { scheduled_transfers = modify schedule_key id f s.db.scheduled_transfers };
  },
)

-- greatest(remaining_runs - 1, 0), if the run counts
abbrev pub runs_left : Bool → Option ℕ → Option ℕ
runs_left consume none = none
runs_left consume (some n) = if consume then some (n - 1) else some n

-- the last run, if runs are counted: a run that is left over is at least one
abbrev pub status_after : ScheduleStatus → Option ℕ → ScheduleStatus
status_after old none = old
status_after old (some n) = if n == 0 then ScheduleStatus.completed else old

-- The next occurrence is one step after the one that ran. There is no step for ONCE.
unfoldable pub advanced : Env → Bool → Schedule → Schedule
advanced env consume s = record s {
  remaining_runs = runs_left consume s.remaining_runs;
  next_run_at = env.add_step s.interval_kind s.next_run_at;
  retry_after = none;
  last_run_at = some env.now;
  status = status_after s.status (runs_left consume s.remaining_runs);
}

abbrev pub completed_once : Env → Schedule → Schedule
completed_once env s = record s {
  status = ScheduleStatus.completed;
  remaining_runs = some 0;
  last_run_at = some env.now;
  retry_after = none;
}

abbrev pub next_of : IntervalKind → Env → Bool → Schedule → Schedule
next_of IntervalKind.once env consume = completed_once env
next_of IntervalKind.daily env consume = advanced env consume
next_of IntervalKind.weekly env consume = advanced env consume
next_of IntervalKind.monthly env consume = advanced env consume

unfoldable pub advance_schedule : ℕ → IntervalKind → Bool → Tx (Unit {0})
unfolding update_schedule advanced
advance_schedule id kind consume env = update_schedule id (next_of kind env consume) env

-- `deferSchedule`: the instant of the next run stays.
unfoldable pub defer_schedule : ℕ → ℕ → Tx (Unit {0})
unfolding update_schedule
defer_schedule id seconds env =
    update_schedule id (λ s. record s { retry_after = some (env.now + seconds * 1_000_000) }) env

-- what its owner can do with a schedule
pub data Change : Type 0 where
  pause resume cancel : Change

abbrev pub changed_status : Change → ScheduleStatus
changed_status Change.pause = ScheduleStatus.paused
changed_status Change.resume = ScheduleStatus.active
changed_status Change.cancel = ScheduleStatus.cancelled

-- LEGAL_FROM of schedule.service.ts
abbrev pub legal_from : Change → ScheduleStatus → Bool
legal_from Change.pause ScheduleStatus.active = true
legal_from Change.resume ScheduleStatus.paused = true
legal_from Change.cancel ScheduleStatus.active = true
legal_from Change.cancel ScheduleStatus.paused = true
legal_from change status = false

-- A schedule that is resumed starts from now, with no run in the past.
abbrev pub changed : Env → Change → Schedule → Schedule
changed env Change.pause s = record s { status = ScheduleStatus.paused }
changed env Change.cancel s = record s { status = ScheduleStatus.cancelled }
changed env Change.resume s = record s {
  status = ScheduleStatus.active;
  next_run_at = if ltb s.next_run_at env.now then env.now else s.next_run_at;
  retry_after = none;
}

abbrev pub transition_found :
    Env → ℕ → Change → Option Schedule → State → Result (Option Schedule) × State
transition_found env owner change none s = (ok none, s)
transition_found env owner change (some r) s =
    if (r.owner_user_id == owner) && legal_from change r.status
    then (
      ok (some (changed env change r)),
      record s {
        db = record s.db {
          scheduled_transfers =
              modify schedule_key r.id (changed env change) s.db.scheduled_transfers;
        };
      },
    )
    else (ok none, s)

unfoldable pub transition_schedule : ℕ → ℕ → Change → Tx (Option Schedule)
transition_schedule id owner change env s =
    transition_found env owner change (find schedule_key id s.db.scheduled_transfers) s
