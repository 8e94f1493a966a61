-- ===== src/App/Steady.antt =====
-- Every reachable world has a property that survives the single writes.
use pstu_hackathon.Base.{ℕ}
use pstu_hackathon.Platform.Schema.{Transfer}
use pstu_hackathon.Platform.Action.{Env, State}
use pstu_hackathon.Platform.Action.Keeps.{Keeps}
use pstu_hackathon.Platform.Transaction.{World}
use pstu_hackathon.Ledger.Steady.{Steady}
use pstu_hackathon.Transfer.Steady.{OnWorld, send_money-Keeps}
use pstu_hackathon.Reversal.{claim_reversal}
use pstu_hackathon.Reversal.Steady.{reverse_transfer-Keeps}
use pstu_hackathon.Request.Steady.{
  RequestSteady, create_request-Keeps, accept_request-Keeps, terminate-Keeps, expire_requests-Keeps,
}
use pstu_hackathon.Split.Steady.{SplitSteady, create_split-Keeps}
use pstu_hackathon.Schedule.Steady.{
  ScheduleSteady, create_schedule-Keeps, change_schedule-Keeps, run_due_schedules-Keeps,
}
use pstu_hackathon.Platform.Database.{OutboxEvent}
use pstu_hackathon.Dispatcher.Steady.{OutboxSteady, dispatch_batch-Keeps}
use pstu_hackathon.Auth.Session.Steady.{SessionSteady, login-Keeps, refresh-Keeps, logout-Keeps}
use pstu_hackathon.App.{
  Call, sending, reversing, requesting, accepting, terminating, expiring, splitting, scheduling,
  changing, running, dispatching, logging_in, refreshing, logging_out, perform, Reaches, here,
  after,
}

-- `P` survives every write of the program.
pub record AppSteady (P : State → Type 0) (C D G : ℕ → Type 0) (E : OutboxEvent → Type 0)
    : Type 0 where
  pub shared : Steady P C
  pub marking : (t : Transfer) → Keeps P (claim_reversal t)
  pub requests : RequestSteady P
  pub splits : SplitSteady P
  pub schedules : ScheduleSteady P D
  pub outbox : OutboxSteady P E
  pub sessions : SessionSteady P G

module _ {P : State → Type 0} {C D G : ℕ → Type 0} {E : OutboxEvent → Type 0}
    (a : AppSteady P C D G E) where
  perform-OnWorld :
      (call : Call) (env : Env) (w : World) → OnWorld P w → OnWorld P (perform call env w)
  unfolding perform
  perform-OnWorld (sending user key input raw) = (send_money-Keeps a.shared user key input raw).at
  perform-OnWorld (reversing user reference key pin raw) =
      (reverse_transfer-Keeps a.shared a.marking user reference key pin raw).at
  perform-OnWorld (requesting user key input raw) =
      (create_request-Keeps a.shared a.requests user key input raw).at
  perform-OnWorld (accepting user request key pin raw) =
      (accept_request-Keeps a.shared a.requests user request key pin raw).at
  perform-OnWorld (terminating user request to reason) =
      (terminate-Keeps a.shared a.requests user request to reason).at
  perform-OnWorld (expiring batch) = (expire_requests-Keeps a.shared a.requests batch).at
  perform-OnWorld (splitting user key input raw) =
      (create_split-Keeps a.shared a.requests a.splits user key input raw).at
  perform-OnWorld (scheduling user key input raw) =
      (create_schedule-Keeps a.shared a.schedules user key input raw).at
  perform-OnWorld (changing user schedule to) =
      (change_schedule-Keeps a.shared a.schedules user schedule to).at
  perform-OnWorld (running limit) = (run_due_schedules-Keeps a.shared a.schedules limit).at
  perform-OnWorld (dispatching limit) = (dispatch_batch-Keeps a.shared a.outbox limit).at
  perform-OnWorld (logging_in input) = (login-Keeps a.shared a.sessions input).at
  perform-OnWorld (refreshing token) = (refresh-Keeps a.shared a.sessions token).at
  perform-OnWorld (logging_out token) = (logout-Keeps a.shared a.sessions token).at

  pub Reaches-OnWorld : {w v : World} → Reaches w v → OnWorld P w → OnWorld P v
  Reaches-OnWorld here h = h
  Reaches-OnWorld (after v call env r) h = perform-OnWorld call env v (Reaches-OnWorld r h)
