-- ===== src/Dispatcher/Notify.antt =====
-- backend/src/modules/notifications/notification.handler.ts: who is told of an event.
use pstu_hackathon.Base.{ℕ, Bool, ◌&&◌, Option, none, some, List, ◌∷◌, ◌==◌}
use pstu_hackathon.Base.Table.{find, first_where}
use pstu_hackathon.Platform.Errors.{pg, SqlState, Constraint}
use pstu_hackathon.Platform.Schema.{User, EventType}
use pstu_hackathon.Platform.Database.{
  Payload, OutboxEvent, Notification, NotificationType, welcome, request_received, about,
}
use pstu_hackathon.Platform.Action.{State, Result, ok, err, Tx, pure, ◌>>◌}
use pstu_hackathon.Transfer.Repo.{user_key}

-- UNIQUE (user_id, event_id)
abbrev pub is_told : ℕ → ℕ → Notification → Bool
is_told user event n = (n.user_id == user) && (n.event_id == event)

abbrev pub told : ℕ → ℕ → List Notification → Option Notification
told user event = first_where (is_told user event)

-- INSERT … ON CONFLICT DO NOTHING, for what is there already and the user of the foreign key
unfoldable pub insert_notification :
    Notification → Option Notification → Option User → State → Result (Unit {0}) × State
insert_notification n (some old) user s = (ok tt, s)
insert_notification n none none s =
    (err (pg SqlState.foreign_key_violation Constraint.other_constraint), s)
insert_notification n none (some u) s =
    (ok tt, record s { db = record s.db { notifications = n ∷ s.db.notifications } })

unfoldable pub notify : Notification → Tx (Unit {0})
unfolding insert_notification
notify n env s =
    insert_notification n (told n.user_id n.event_id s.db.notifications)
      (find user_key n.user_id s.db.users) s

-- the user that a payload names, and the type under which they are told, if the event has a consumer
unfoldable pub receiver : EventType → Payload → Option ℕ
receiver EventType.user_registered p = p.user_id
receiver EventType.money_received p = p.recipient_user_id
receiver EventType.request_created p = p.payer_user_id
receiver EventType.request_accepted p = p.requester_user_id
receiver EventType.request_declined p = p.requester_user_id
receiver EventType.request_cancelled p = p.payer_user_id
receiver EventType.request_expired p = p.requester_user_id
receiver EventType.schedule_paid p = p.owner_user_id
receiver EventType.schedule_failed p = p.owner_user_id
receiver EventType.schedule_skipped p = p.owner_user_id
receiver EventType.account_frozen p = p.user_id
receiver EventType.account_unfrozen p = p.user_id
receiver EventType.security_alert p = p.user_id
receiver EventType.money_sent p = none
receiver EventType.transfer_reversed p = none

abbrev pub notification_type : EventType → NotificationType
notification_type EventType.user_registered = welcome
notification_type EventType.request_created = request_received
notification_type other = about other

abbrev pub deliver : Option ℕ → ℕ → EventType → Tx ℕ
deliver none id type = pure 0
deliver (some user) id type = do
  notify (record { user_id = user; event_id = id; type = notification_type type })
  pure 1

-- the number of notifications that the event has produced
unfoldable pub handle_event : OutboxEvent → Tx ℕ
unfolding notify receiver
handle_event e = deliver (receiver e.event_type e.payload) e.id e.event_type
