-- ===== src/App/Delivery.antt =====
-- Events are tried at most five times, and nobody is told of one twice.
use pstu_hackathon.Base.{ℕ, ◌<◌, ◌≡◌, refl, arith, true, none, some, Option, List, [], ◌∷◌}
use pstu_hackathon.Base.Table.{All, All-imp, All-modify, find, sort_by, select_where}
use pstu_hackathon.Base.Rows.{All-take, All-sort_by, All-selected}
use pstu_hackathon.Platform.Schema.{OutboxStatus, User, Transfer}
use pstu_hackathon.Platform.Database.{OutboxEvent, Notification, IdempotencyKey}
use pstu_hackathon.Platform.Action.{State}
use pstu_hackathon.Platform.Action.Keeps.{Keeps}
use pstu_hackathon.Platform.Outbox.{enqueue_event, insert_audit_log}
use pstu_hackathon.Platform.Idempotency.{
  ClaimInput, find_key, claim_found, claim_idempotency_key, complete_idempotency_key,
}
use pstu_hackathon.Platform.Transaction.{World}
use pstu_hackathon.Auth.Pin.{count_failed_attempt, forget_failures}
use pstu_hackathon.Ledger.{insert_movement}
use pstu_hackathon.Ledger.Aside.{Aside, posting-Keeps}
use pstu_hackathon.Ledger.Steady.{Steady, any_claim}
use pstu_hackathon.Transfer.Repo.{user_key}
use pstu_hackathon.Transfer.Steady.{OnWorld}
use pstu_hackathon.Reversal.{claim_reversal}
use pstu_hackathon.Request.Updates.{chosen}
use pstu_hackathon.Request.Aside
use pstu_hackathon.Split.Steady.{unseen}
use pstu_hackathon.Schedule.Aside as ScheduleAside
use pstu_hackathon.Dispatcher.{
  due_events, is_due, max_attempts, mark_processed, mark_failed, update_event, processed_once,
  failed_once, event_key,
}
use pstu_hackathon.Dispatcher.Notify.{told, insert_notification, notify}
use pstu_hackathon.Dispatcher.Steady.{OutboxSteady}
use pstu_hackathon.Auth.Session.Steady.{unseen_tokens}
use pstu_hackathon.App.{Reaches}
use pstu_hackathon.App.Steady.{Reaches-OnWorld}

-- An event that waits has been tried less than five times, one that has failed exactly five times.
abbrev pub IsCounted : OutboxEvent → Type 0
IsCounted e =
    (e.status ≡ OutboxStatus.pending → e.attempts < max_attempts)
    × (e.status ≡ OutboxStatus.failed → e.attempts ≡ max_attempts)

-- No later notification is of the same user and event.
abbrev pub IsOnce : List Notification → Type 0
IsOnce [] = Unit
IsOnce (n ∷ ns) = (told n.user_id n.event_id ns ≡ none) × IsOnce ns

abbrev pub IsDelivered : State → Type 0
IsDelivered s = All IsCounted s.db.outbox_events × IsOnce s.db.notifications

-- an event that may be tried
abbrev IsLeft : OutboxEvent → Type 0
IsLeft e = e.attempts < max_attempts

claimed :
    (input : ClaimInput) (now : ℕ) (found : Option IdempotencyKey) (s : State)
    → IsDelivered s
    → IsDelivered (claim_found input now found s).1
unfolding claim_found
claimed input now none s h = h
claimed input now (some k) s h = h

aside : Aside IsDelivered
unfolding insert_movement
aside = record {
  hooks = λ hs s h. h;
  accounts = λ as' s h. h;
  movement = λ c reference x y. record { at = λ env s h. h };
}

IsDelivered-Steady : Steady IsDelivered (λ id. Unit)
unfolding enqueue_event insert_audit_log claim_idempotency_key complete_idempotency_key
    count_failed_attempt forget_failures
IsDelivered-Steady = record {
  hooks = λ hs s h. h;
  event = λ e. record { at = λ env s h. ((((λ p. omega arith), (λ p. cc)), h.0), h.1) };
  audit = λ a. record { at = λ env s h. h };
  claim = λ input. record {
    at = λ env s h.
        claimed input env.now (find_key input.user_id input.key s.db.idempotency_keys) s h;
  };
  creation = λ input env s h. any_claim (claim_idempotency_key input env s).0;
  completion = λ id status body c. record { at = λ env s h. h };
  posting = posting-Keeps aside;
  failed = λ id. record { at = λ env s h. h };
  forgotten = λ id. record { at = λ env s h. h };
}

due-IsLeft :
    (now limit : ℕ) (es : List OutboxEvent)
    → All IsCounted es
    → All IsLeft (due_events now limit es)
unfolding due_events
due-IsLeft now limit es h =
    All-take IsLeft limit
      (sort_by (λ (e : OutboxEvent). e.created_at) (select_where (is_due now) es))
      (All-sort_by IsLeft (λ (e : OutboxEvent). e.created_at) (select_where (is_due now) es)
        (All-selected IsLeft (is_due now) es (All-imp es (λ e k due. k.0 (waits e due)) h)))
  where
    waits : (e : OutboxEvent) → is_due now e ≡ true → e.status ≡ OutboxStatus.pending
    waits e due = ground (arith, due)

inserted :
    (n : Notification) (old : Option Notification) (u : Option User) (s : State)
    → told n.user_id n.event_id s.db.notifications ≡ old
    → IsDelivered s
    → IsDelivered (insert_notification n old u s).1
unfolding insert_notification
inserted n (some old) u s e h = h
inserted n none none s e h = h
inserted n none (some u) s e h = (h.0, (e, h.1))

failed-IsCounted : (now : ℕ) (e x : OutboxEvent) → IsLeft e → IsCounted (failed_once now e x)
failed-IsCounted now e x lt = ground (arith, lt)

IsDelivered-OutboxSteady : OutboxSteady IsDelivered IsLeft
unfolding notify mark_processed mark_failed update_event
IsDelivered-OutboxSteady = record {
  notification = λ n. record {
    at = λ env s h.
        inserted n (told n.user_id n.event_id s.db.notifications)
          (find user_key n.user_id s.db.users) s refl h;
  };
  success = λ e x. record {
    at = λ env s h. (
      All-modify event_key e.id processed_once s.db.outbox_events (λ y k. ((λ p. cc), (λ p. cc)))
          h.0,
      h.1,
    );
  };
  refusal = λ e x. record {
    at = λ env s h. (
      All-modify event_key e.id (failed_once env.now e) s.db.outbox_events
          (λ y k. failed-IsCounted env.now e y x) h.0,
      h.1,
    );
  };
  due = λ limit env s h. due-IsLeft env.now limit s.db.outbox_events h.0;
}

marking : (t : Transfer) → Keeps IsDelivered (claim_reversal t)
unfolding claim_reversal
marking t = record { at = λ env s h. chosen IsDelivered _ _ _ _ s (λ e. h) h }

-- Whatever calls are made, batches of the dispatcher among them, from a database where every waiting event has
-- been tried less than five times and every failed one exactly five times, and where nobody has been told
-- of an event twice, the same holds afterwards.
pub Reaches-IsDelivered :
    {w v : World} → Reaches w v → OnWorld IsDelivered w → OnWorld IsDelivered v
Reaches-IsDelivered = Reaches-OnWorld (record {
  shared = IsDelivered-Steady;
  marking = marking;
  requests = Aside.apart (record { requests = λ s n rs le h. h });
  splits = unseen (λ s n bs le h. h);
  schedules = ScheduleAside.apart (record { schedules = λ s n ss os le h. h });
  sessions = unseen_tokens (λ s n ts le h. h);
  outbox = IsDelivered-OutboxSteady;
})
