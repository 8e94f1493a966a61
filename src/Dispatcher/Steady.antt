-- ===== src/Dispatcher/Steady.antt =====
-- The dispatcher keeps a steady property that survives its writes to events and notifications.
use pstu_hackathon.Base.{ℕ, Option, none, some, List, [], ◌∷◌}
use pstu_hackathon.Base.Table.{All, find}
use pstu_hackathon.Platform.Schema.{User, EventType}
use pstu_hackathon.Platform.Database.{OutboxEvent, Notification}
use pstu_hackathon.Platform.Action.{Env, State, Result, ok, err, Tx, ◌>>=◌, continue}
use pstu_hackathon.Platform.Action.Keeps.{Keeps, pure-Keeps, bind-Keeps}
use pstu_hackathon.Ledger.Steady.{Steady}
use pstu_hackathon.Transfer.Repo.{user_key}
use pstu_hackathon.Transfer.Steady.{OnWorld, with_transaction-Keeps}
use pstu_hackathon.Dispatcher.Notify.{
  insert_notification, notify, told, deliver, receiver, handle_event,
}
use pstu_hackathon.Dispatcher.{
  due_events, claim_events, update_event, mark_processed, mark_failed, or_rolled_back, try_event,
  on_delivery, DispatchResult, dispatch_event, dispatch_all, dispatch_tx, dispatch_batch,
}

-- `P` survives a notification and the end of an attempt at one of the events in `E`, and those that are due
-- while `P` holds are among them.
pub record OutboxSteady (P : State → Type 0) (E : OutboxEvent → Type 0) : Type 0 where
  pub notification : (n : Notification) → Keeps P (notify n)
  pub success : (e : OutboxEvent) → E e → Keeps P (mark_processed e)
  pub refusal : (e : OutboxEvent) → E e → Keeps P (mark_failed e)
  pub due :
      (limit : ℕ) (env : Env) (s : State)
      → P s
      → All E (due_events env.now limit s.db.outbox_events)

every_due : (es : List OutboxEvent) → All {0, 0} (λ e. Unit) es
every_due [] = tt
every_due (e ∷ es) = (tt, every_due es)

-- a property that looks at neither table
pub unseen_outbox :
    {P : State → Type 0}
    → ((s : State) (es : List OutboxEvent) (ns : List Notification)
        → P s
        → P (record s { db = record s.db { outbox_events = es; notifications = ns } }))
    → OutboxSteady P (λ e. Unit)
unfolding notify insert_notification mark_processed mark_failed update_event
unseen_outbox {P} k = record {
  notification = λ n. record {
    at = λ env s h.
        inserted n (told n.user_id n.event_id s.db.notifications)
          (find user_key n.user_id s.db.users) s h;
  };
  success = λ e x. record { at = λ env s h. k s _ s.db.notifications h };
  refusal = λ e x. record { at = λ env s h. k s _ s.db.notifications h };
  due = λ limit env s h. every_due (due_events env.now limit s.db.outbox_events);
}
  where
    inserted :
        (n : Notification) (old : Option Notification) (u : Option User) (s : State)
        → P s
        → P (insert_notification n old u s).1
    inserted n (some old) u s h = h
    inserted n none none s h = h
    inserted n none (some u) s h = k s s.db.outbox_events _ h

module _ {P : State → Type 0} {C : ℕ → Type 0} {E : OutboxEvent → Type 0} (b : Steady P C)
    (q : OutboxSteady P E) where
  deliver-Keeps : (u : Option ℕ) (id : ℕ) (type : EventType) → Keeps P (deliver u id type)
  deliver-Keeps none id type = pure-Keeps 0
  deliver-Keeps (some u) id type = bind-Keeps _ _ (q.notification _) (λ a. pure-Keeps 1)

  handle_event-Keeps : (e : OutboxEvent) → Keeps P (handle_event e)
  unfolding handle_event
  handle_event-Keeps e = deliver-Keeps (receiver e.event_type e.payload) e.id e.event_type

  rolled_back :
      (before : State) (o : Result ℕ × State) → P before → P o.1 → P (or_rolled_back before o).1
  rolled_back before (ok n, s) h k = k
  rolled_back before (err e, s) h k = b.hooks s.hooks before h

  try_event-Keeps : (m : Tx ℕ) → Keeps P m → Keeps P (try_event m)
  unfolding try_event
  try_event-Keeps m k = record { at = λ env s h. rolled_back s (m env s) h (k.at env s h) }

  on_delivery-Keeps :
      (e : OutboxEvent) (r : DispatchResult) (o : Result ℕ) → E e → Keeps P (on_delivery e r o)
  on_delivery-Keeps e r (ok n) x = bind-Keeps _ _ (q.success e x) (λ a. pure-Keeps _)
  on_delivery-Keeps e r (err f) x = bind-Keeps _ _ (q.refusal e x) (λ a. pure-Keeps _)

  dispatch_event-Keeps : (e : OutboxEvent) (r : DispatchResult) → E e → Keeps P (dispatch_event e r)
  unfolding dispatch_event
  dispatch_event-Keeps e r x =
      bind-Keeps _ _ (try_event-Keeps _ (handle_event-Keeps e)) (λ o. on_delivery-Keeps e r o x)

  dispatch_all-Keeps :
      (es : List OutboxEvent) (r : DispatchResult) → All E es → Keeps P (dispatch_all es r)
  unfolding dispatch_all
  dispatch_all-Keeps [] r x = pure-Keeps r
  dispatch_all-Keeps (e ∷ es) r (x, xs) =
      bind-Keeps _ _ (dispatch_event-Keeps e r x) (λ next. dispatch_all-Keeps es next xs)

  dispatch_tx-Keeps : (limit : ℕ) → Keeps P (dispatch_tx limit)
  unfolding dispatch_tx claim_events ◌>>=◌ continue
  dispatch_tx-Keeps limit = record {
    at = λ env s h.
        (dispatch_all-Keeps (due_events env.now limit s.db.outbox_events) _
            (q.due limit env s h)).at
          env s h;
  }

  pub dispatch_batch-Keeps : (limit : ℕ) → Keeps (OnWorld P) (dispatch_batch limit)
  unfolding dispatch_batch
  dispatch_batch-Keeps limit = with_transaction-Keeps b _ (dispatch_tx-Keeps limit)
