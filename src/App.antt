-- ===== src/App.antt =====
-- The program as a whole: the calls that its routes and workers make, one after the other.
pub mod Steady
pub mod Books
pub mod Keys
pub mod Replay
pub mod Tables
pub mod Reversed
pub mod Ended
pub mod Settled
pub mod Reconciled
pub mod Delivery
pub mod Apart
pub mod Revoked
use pstu_hackathon.Base.{ℕ, Option}
use pstu_hackathon.Shared.Text.{Text}
use pstu_hackathon.Platform.Action.{Env}
use pstu_hackathon.Platform.Transaction.{World}
use pstu_hackathon.Platform.Canonical.{Json}
use pstu_hackathon.Transfer.{CreateTransferInput, send_money}
use pstu_hackathon.Reversal.{reverse_transfer}
use pstu_hackathon.Request.{CreateRequestInput, create_request, accept_request}
use pstu_hackathon.Request.Ending.{terminate, expire_requests}
use pstu_hackathon.Request.Repo.{Terminal}
use pstu_hackathon.Split.{CreateSplitInput, create_split}
use pstu_hackathon.Dispatcher.{dispatch_batch}
use pstu_hackathon.Auth.Session.{LoginInput, login, refresh, logout}
use pstu_hackathon.Schedule.{CreateScheduleInput, create_schedule, change_schedule}
use pstu_hackathon.Schedule.Repo.{Change}
use pstu_hackathon.Schedule.Tick.{run_due_schedules}

-- A call with its arguments. Those of the endpoints start with the user who is signed in.
pub data Call : Type 0 where
  sending : ℕ → ℕ → CreateTransferInput → Json → Call
  reversing : ℕ → Text → ℕ → Text → Json → Call
  requesting : ℕ → ℕ → CreateRequestInput → Json → Call
  accepting : ℕ → ℕ → ℕ → Text → Json → Call
  terminating : ℕ → ℕ → Terminal → Option Text → Call
  expiring : ℕ → Call
  splitting : ℕ → ℕ → CreateSplitInput → Json → Call
  scheduling : ℕ → ℕ → CreateScheduleInput → Json → Call
  changing : ℕ → ℕ → Change → Call
  running : ℕ → Call
  dispatching : ℕ → Call
  logging_in : LoginInput → Call
  refreshing : Text → Call
  logging_out : Text → Call

-- what a call leaves, its answer aside
unfoldable pub perform : Call → Env → World → World
perform (sending user key input raw) env w = (send_money user key input raw env w).1
perform (reversing user reference key pin raw) env w =
    (reverse_transfer user reference key pin raw env w).1
perform (requesting user key input raw) env w = (create_request user key input raw env w).1
perform (accepting user request key pin raw) env w =
    (accept_request user request key pin raw env w).1
perform (terminating user request to reason) env w = (terminate user request to reason env w).1
perform (expiring batch) env w = (expire_requests batch env w).1
perform (splitting user key input raw) env w = (create_split user key input raw env w).1
perform (scheduling user key input raw) env w = (create_schedule user key input raw env w).1
perform (changing user schedule to) env w = (change_schedule user schedule to env w).1
perform (running limit) env w = (run_due_schedules limit env w).1
perform (dispatching limit) env w = (dispatch_batch limit env w).1
perform (logging_in input) env w = (login input env w).1
perform (refreshing token) env w = (refresh token env w).1
perform (logging_out token) env w = (logout token env w).1

-- The worlds that calls lead to, each of them in an environment of its own.
pub data Reaches (w : World) : World → Type 0 where
  here : Reaches w w
  after : (v : World) (call : Call) (env : Env) → Reaches w v → Reaches w (perform call env v)
