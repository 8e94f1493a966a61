-- ===== src/Dispatcher/Once.antt =====
-- An event that is handled again tells nobody twice.
use pstu_hackathon.Base.{ℕ, ◌≡◌, refl, ap, subst, ◌∙◌, Option, none, some, ==_self}
use pstu_hackathon.Base.Table.{find}
use pstu_hackathon.Platform.Schema.{User, EventType}
use pstu_hackathon.Platform.Database.{OutboxEvent, Notification}
use pstu_hackathon.Platform.Action.{Env, State, Result, ok, pure}
use pstu_hackathon.Platform.Action.Steps.{bind_ok, bind_inv}
use pstu_hackathon.Transfer.Repo.{user_key}
use pstu_hackathon.Dispatcher.Notify.{
  told, insert_notification, notify, notification_type, deliver, receiver, handle_event,
}

pair_inv :
    {A S : Type 0} {a b : A} {s t : S} → Path (Result A × S) (ok a, s) (ok b, t) → (a ≡ b) × (s ≡ t)
pair_inv h = (cc, cc)

module _ (n : Notification) where
  -- whether the notification has a row
  abbrev IsTold : State → Type 0
  IsTold s = (m : Notification) × (told n.user_id n.event_id s.db.notifications ≡ some m)

  inserted :
      (old : Option Notification) (x : Option User) (s s' : State)
      → told n.user_id n.event_id s.db.notifications ≡ old
      → insert_notification n old x s ≡ (ok tt, s')
      → IsTold s'
  unfolding insert_notification
  inserted (some m) x s s' e h = subst IsTold (pair_inv h).1 (m, e)
  inserted none none s s' e h = cc
  inserted none (some u) s s' e h =
      subst IsTold (pair_inv h).1 (n, rw (==_self n.user_id, ==_self n.event_id) refl)

  notify_again : (later : Env) (s : State) → IsTold s → notify n later s ≡ (ok tt, s)
  unfolding notify insert_notification
  notify_again later s (m, e) = rw e refl

deliver_again :
    (user : Option ℕ) (id : ℕ) (type : EventType) (env later : Env) (s s' : State) (k : ℕ)
    → deliver user id type env s ≡ (ok k, s')
    → deliver user id type later s' ≡ (ok k, s')
unfolding pure notify
deliver_again none id type env later s s' k h = ap (λ (x : ℕ). (ok x, s')) (pair_inv h).0
deliver_again (some user) id type env later s s' k h =
    let n : Notification = record {
      user_id = user;
      event_id = id;
      type = notification_type type;
    } in
    let (a, s1, first, second) = bind_inv (notify n) (λ u. pure 1) {env = env} {s = s} h in
    let (one, same) = pair_inv second in
    let there = subst (IsTold n) same (
      inserted n (told user id s.db.notifications) (find user_key user s.db.users) s s1 refl
        first) in
    bind_ok (notify n) (λ u. pure 1) {env = later} {s = s'} (notify_again n later s' there)
    ∙ ap (λ (x : ℕ). (ok x, s')) one

-- An event that has been handled is handled again with the same count, whenever it comes back, and nothing
-- changes: nobody is told twice.
pub handle_event_again :
    (e : OutboxEvent) (env later : Env) (s s' : State) (k : ℕ)
    → handle_event e env s ≡ (ok k, s')
    → handle_event e later s' ≡ (ok k, s')
unfolding handle_event
handle_event_again e env later s s' k h =
    deliver_again (receiver e.event_type e.payload) e.id e.event_type env later s s' k h
