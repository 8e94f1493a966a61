-- ===== src/Schedule/Tick.antt =====
-- backend/src/workers/schedule.worker.ts: a tick of the worker, which runs the schedules that are due.
use pstu_hackathon.Base.{ℕ, zero, suc, ◌+◌, Bool, ◌&&◌, not, List, [], ◌∷◌, ◌==◌, if◌then◌else◌}
use pstu_hackathon.Platform.Action.{pure, ◌>>=◌}
use pstu_hackathon.Platform.Transaction.{Handler, with_read_transaction}
use pstu_hackathon.Schedule.Repo.{find_due_schedule_ids}
use pstu_hackathon.Schedule.Run.{RunOutcome, run_schedule}

pub record ScheduleTickResult : Type 0 where
  pub claimed : ℕ
  pub paid : ℕ
  pub failed : ℕ
  pub deferred : ℕ
  pub skipped : ℕ
  pub duplicate : ℕ

abbrev pub empty_tick : ScheduleTickResult
empty_tick = record { claimed = 0; paid = 0; failed = 0; deferred = 0; skipped = 0; duplicate = 0 }

unfoldable pub count_outcome : RunOutcome → ScheduleTickResult → ScheduleTickResult
count_outcome RunOutcome.paid r = record r { claimed = r.claimed + 1; paid = r.paid + 1 }
count_outcome RunOutcome.failed r = record r { claimed = r.claimed + 1; failed = r.failed + 1 }
count_outcome RunOutcome.deferred r = record r {
  claimed = r.claimed + 1;
  deferred = r.deferred + 1;
}
count_outcome RunOutcome.skipped r = record r { claimed = r.claimed + 1; skipped = r.skipped + 1 }
count_outcome RunOutcome.duplicate r = record r {
  claimed = r.claimed + 1;
  duplicate = r.duplicate + 1;
}
count_outcome RunOutcome.not_claimed r = r

-- the loop over the due schedules, one transaction for each
unfoldable pub run_all : List ℕ → ScheduleTickResult → Handler ScheduleTickResult
unfolding run_schedule count_outcome
run_all [] r = pure r
run_all (id ∷ ids) r = do outcome ← run_schedule id; run_all ids (count_outcome outcome r)

unfoldable pub run_due_schedules : ℕ → Handler ScheduleTickResult
unfolding run_all
run_due_schedules limit = do
  due ← with_read_transaction (find_due_schedule_ids limit)
  run_all due empty_tick

-- `total.claimed += result.claimed` and so on
unfoldable pub add_ticks : ScheduleTickResult → ScheduleTickResult → ScheduleTickResult
add_ticks t r = record {
  claimed = t.claimed + r.claimed;
  paid = t.paid + r.paid;
  failed = t.failed + r.failed;
  deferred = t.deferred + r.deferred;
  skipped = t.skipped + r.skipped;
  duplicate = t.duplicate + r.duplicate;
}

-- A schedule that is deferred is not progress.
abbrev pub made_progress : ScheduleTickResult → Bool
made_progress r = not (r.paid == 0 && (r.failed == 0 && (r.skipped == 0 && r.duplicate == 0)))

-- the loop of `drainSchedules`, of as many ticks as are left; a tick runs at most 50 schedules
unfoldable pub drain_ticks : ℕ → ScheduleTickResult → Handler ScheduleTickResult
unfolding run_due_schedules add_ticks
drain_ticks zero sum = pure sum
drain_ticks (suc left) sum = do
  result ← run_due_schedules 50
  let again = drain_ticks left (add_ticks sum result)
  if made_progress result then again else pure (add_ticks sum result)

unfoldable pub drain_schedules : ℕ → Handler ScheduleTickResult
unfolding drain_ticks
drain_schedules max_ticks = drain_ticks max_ticks empty_tick
