-- ===== src/Tests/Reports.antt =====
-- Reconciliation and the dispatcher on the small database.
use pstu_hackathon.Base.{◌≡◌, refl, some, none, [], ◌∷◌, arith}
use pstu_hackathon.Platform.Schema.{EventType, AggregateType, OutboxStatus}
use pstu_hackathon.Platform.Database.{OutboxEvent, about, no_payload}
use pstu_hackathon.Platform.Action.{State, ok}
use pstu_hackathon.Platform.Transaction.{World}
use pstu_hackathon.Platform.Canonical.{Json}
use pstu_hackathon.Transfer.Steady.{OnWorld}
use pstu_hackathon.Dispatcher.Notify.{handle_event, insert_notification, notify, receiver}
use pstu_hackathon.Dispatcher.Once.{handle_event_again}
use pstu_hackathon.Admin.Reconciliation.{reconcile}
use pstu_hackathon.App.{Call, perform, here, after}
use pstu_hackathon.App.Reconciled.{report_of, reconcile_passes}
use pstu_hackathon.App.Delivery.{IsDelivered, Reaches-IsDelivered}
use pstu_hackathon.Tests.Payment.{lunch, paid}
use pstu_hackathon.Tests.Example.{env, world, opened, funded-IsBalanced}

reconcile_passes_example : reconcile env paid ≡ (ok (report_of env paid.db), paid)
unfolding pstu_hackathon.Transfer.send_money perform
reconcile_passes_example =
    reconcile_passes env (after world (Call.sending 20 7 lunch Json.undefined) env here)
      funded-IsBalanced (refl, refl)

abbrev received : OutboxEvent
received = record {
  id = 80;
  event_type = EventType.money_received;
  aggregate_type = AggregateType.transfer;
  aggregate_id = 60;
  payload = record no_payload { recipient_user_id = some 30 };
  status = OutboxStatus.pending;
  attempts = 4;
  next_attempt_at = 5;
  created_at = 5;
}

abbrev queued : World
queued = record {
  db = record opened { outbox_events = received ∷ [] };
  cache = λ id. none;
  positions = [];
  alerts = [];
}

Reaches-IsDelivered_example : OnWorld IsDelivered (perform (Call.dispatching 50) env queued)
Reaches-IsDelivered_example =
    Reaches-IsDelivered (after queued (Call.dispatching 50) env here)
      ((((λ p. omega arith), (λ p. cc)), tt), tt)

abbrev bob_told : State
bob_told = record {
  db = record queued.db {
    notifications =
        record { user_id = 30; event_id = 80; type = about EventType.money_received } ∷ [];
  };
  hooks = [];
}

handled : handle_event received env (record { db = queued.db; hooks = [] }) ≡ (ok 1, bob_told)
unfolding handle_event notify insert_notification receiver pstu_hackathon.Platform.Action.◌>>=◌
    pstu_hackathon.Platform.Action.continue pstu_hackathon.Platform.Action.pure
handled = refl

handle_event_again_example : handle_event received env bob_told ≡ (ok 1, bob_told)
handle_event_again_example =
    handle_event_again received env env (record { db = queued.db; hooks = [] }) bob_told 1 handled
