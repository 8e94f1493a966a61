-- ===== src/Platform/Outbox.antt =====
-- backend/src/platform/outbox/index.ts, `insertAuditLog` of auth.repo.ts and `trackWrite` of
-- db/read-router.ts: what a transaction writes besides its business.
use pstu_hackathon.Base.{ℕ, ◌+◌, Option, none, some, List, [], ◌∷◌, if◌then◌else◌}
use pstu_hackathon.Platform.Schema.{EventType, AggregateType, OutboxStatus}
use pstu_hackathon.Platform.Database.{Payload, AuditLog}
use pstu_hackathon.Platform.Action.{Hook, ok, Tx}

-- an event before it has an id
pub record NewEvent : Type 0 where
  pub event_type : EventType
  pub aggregate_type : AggregateType
  pub aggregate_id : ℕ
  pub payload : Payload

-- INSERT INTO outbox_events … RETURNING id; the row is PENDING, with no attempt, and due at once.
unfoldable pub enqueue_event : NewEvent → Tx ℕ
enqueue_event e env s =
    let id = s.db.next_id in
    (
      ok id,
      record s {
        db = record s.db {
          next_id = id + 1;
          outbox_events =
              record {
                id = id;
                event_type = e.event_type;
                aggregate_type = e.aggregate_type;
                aggregate_id = e.aggregate_id;
                payload = e.payload;
                status = OutboxStatus.pending;
                attempts = 0;
                next_attempt_at = env.now;
                created_at = env.now;
              }
              ∷ s.db.outbox_events;
        };
      },
    )

unfoldable pub insert_audit_log : AuditLog → Tx (Unit {0})
insert_audit_log a env s =
    (ok tt, record s { db = record s.db { audit_logs = a ∷ s.db.audit_logs } })

-- the ids that are there
unfoldable pub targets : List (Option ℕ) → List ℕ
targets [] = []
targets (none ∷ us) = targets us
targets (some u ∷ us) = u ∷ targets us

abbrev pub track : List ℕ → Option ℕ → List Hook → List Hook
track [] lsn hooks = hooks
track (u ∷ us) none hooks = hooks
track (u ∷ us) (some lsn) hooks = Hook.track_position (u ∷ us) lsn ∷ hooks

-- Nothing without a replica, without users, or without a position.
unfoldable pub track_write : List (Option ℕ) → Tx (Unit {0})
unfolding targets
track_write users env s = (
  ok tt,
  record s {
    hooks =
        if env.config.replica_configured
        then track (targets users) env.wal_lsn s.hooks
        else s.hooks;
  },
)
