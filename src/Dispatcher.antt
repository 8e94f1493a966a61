-- ===== src/Dispatcher.antt =====
-- backend/src/workers/outbox.dispatcher.ts: delivery of the committed events, with retries. The text of the
-- last error is left out.
pub mod Notify
pub mod Steady
pub mod Once
use pstu_hackathon.Base.{
  ℕ, zero, suc, ◌+◌, ◌*◌, ◌^◌, Bool, true, false, ◌&&◌, List, [], ◌∷◌, leb, ltb, ◌==◌, length,
  if◌then◌else◌,
}
use pstu_hackathon.Base.Table.{select_where, sort_by, take, modify}
use pstu_hackathon.Platform.Schema.{OutboxStatus}
use pstu_hackathon.Platform.Database.{OutboxEvent}
use pstu_hackathon.Platform.Action.{Env, State, Result, ok, err, Tx, pure, ◌>>=◌, ◌>>◌}
use pstu_hackathon.Platform.Transaction.{Handler, with_transaction}
use Notify.{handle_event}

abbrev pub max_attempts : ℕ
max_attempts = 5

pub record DispatchResult : Type 0 where
  pub claimed : ℕ
  pub processed : ℕ
  pub failed : ℕ
  pub notifications : ℕ

abbrev pub event_key : OutboxEvent → ℕ
event_key e = e.id

abbrev pub is_waiting : OutboxStatus → Bool
is_waiting OutboxStatus.pending = true
is_waiting OutboxStatus.processed = false
is_waiting OutboxStatus.failed = false

abbrev pub is_due : ℕ → OutboxEvent → Bool
is_due now e = is_waiting e.status && leb e.next_attempt_at now

unfoldable pub due_events : ℕ → ℕ → List OutboxEvent → List OutboxEvent
unfolding sort_by
due_events now limit es =
    take limit (sort_by (λ (e : OutboxEvent). e.created_at) (select_where (is_due now) es))

unfoldable pub claim_events : ℕ → Tx (List OutboxEvent)
unfolding due_events
claim_events limit env s = (ok (due_events env.now limit s.db.outbox_events), s)

-- UPDATE outbox_events SET … WHERE id = $1
unfoldable pub update_event : ℕ → (OutboxEvent → OutboxEvent) → Tx (Unit {0})
update_event id f env s = (
  ok tt,
  record s { db = record s.db { outbox_events = modify event_key id f s.db.outbox_events } },
)

abbrev pub processed_once : OutboxEvent → OutboxEvent
processed_once e = record e { status = OutboxStatus.processed; attempts = e.attempts + 1 }

unfoldable pub mark_processed : OutboxEvent → Tx (Unit {0})
unfolding update_event
mark_processed e = update_event e.id processed_once

-- `Math.min(2 ** attempts, 300)`
abbrev pub backoff_seconds : ℕ → ℕ
backoff_seconds attempts = if ltb 300 (2 ^ attempts) then 300 else 2 ^ attempts

-- the row after a failure of the event that was read as `e`
abbrev pub failed_once : ℕ → OutboxEvent → OutboxEvent → OutboxEvent
failed_once now e row = record row {
  status = if leb max_attempts (e.attempts + 1) then OutboxStatus.failed else OutboxStatus.pending;
  attempts = e.attempts + 1;
  next_attempt_at = now + backoff_seconds (e.attempts + 1) * 1_000_000;
}

unfoldable pub mark_failed : OutboxEvent → Tx (Unit {0})
unfolding update_event
mark_failed e env = update_event e.id (failed_once env.now e) env

-- SAVEPOINT, and ROLLBACK TO SAVEPOINT after any error
abbrev pub or_rolled_back : State → Result ℕ × State → Result (Result ℕ) × State
or_rolled_back before (ok n, s) = (ok (ok n), s)
or_rolled_back before (err e, s) = (ok (err e), record before { hooks = s.hooks })

unfoldable pub try_event : Tx ℕ → Tx (Result ℕ)
try_event m env s = or_rolled_back s (m env s)

abbrev pub delivered : DispatchResult → ℕ → DispatchResult
delivered r n = record r { processed = r.processed + 1; notifications = r.notifications + n }

abbrev pub refused : DispatchResult → DispatchResult
refused r = record r { failed = r.failed + 1 }

abbrev pub on_delivery : OutboxEvent → DispatchResult → Result ℕ → Tx DispatchResult
on_delivery e r (ok n) = do mark_processed e; pure (delivered r n)
on_delivery e r (err _) = do mark_failed e; pure (refused r)

unfoldable pub dispatch_event : OutboxEvent → DispatchResult → Tx DispatchResult
unfolding try_event handle_event mark_processed mark_failed
dispatch_event e r = do outcome ← try_event (handle_event e); on_delivery e r outcome

unfoldable pub dispatch_all : List OutboxEvent → DispatchResult → Tx DispatchResult
unfolding dispatch_event
dispatch_all [] r = pure r
dispatch_all (e ∷ es) r = do next ← dispatch_event e r; dispatch_all es next

abbrev pub claimed_result : ℕ → DispatchResult
claimed_result n = record { claimed = n; processed = 0; failed = 0; notifications = 0 }

unfoldable pub dispatch_tx : ℕ → Tx DispatchResult
unfolding claim_events dispatch_all
dispatch_tx limit = do
  events ← claim_events limit
  dispatch_all events (claimed_result (length events))

unfoldable pub dispatch_batch : ℕ → Handler DispatchResult
unfolding dispatch_tx
dispatch_batch limit = with_transaction (dispatch_tx limit)

unfoldable pub add_results : DispatchResult → DispatchResult → DispatchResult
add_results t b = record {
  claimed = t.claimed + b.claimed;
  processed = t.processed + b.processed;
  failed = t.failed + b.failed;
  notifications = t.notifications + b.notifications;
}

-- the loop of `drainOutbox`, of as many batches as are left; a batch has at most 50 events
unfoldable pub drain_batches : ℕ → DispatchResult → Handler DispatchResult
unfolding dispatch_batch add_results
drain_batches zero sum = pure sum
drain_batches (suc left) sum = do
  batch ← dispatch_batch 50
  let again = drain_batches left (add_results sum batch)
  if batch.claimed == 0 then pure (add_results sum batch) else again

unfoldable pub drain_outbox : ℕ → Handler DispatchResult
unfolding drain_batches
drain_outbox max_batches = drain_batches max_batches (claimed_result 0)
