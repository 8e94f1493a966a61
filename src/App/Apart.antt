-- ===== src/App/Apart.antt =====
-- A property that looks at the next identifier and at tables that the shared writes leave alone.
use pstu_hackathon.Base.{ℕ, ◌+◌, ◌≤◌, arith, Option, none, some, List}
use pstu_hackathon.Platform.Schema.{User, Account, Transfer, Entry}
use pstu_hackathon.Platform.Database.{IdempotencyKey, OutboxEvent, AuditLog}
use pstu_hackathon.Platform.Action.{Hook, State}
use pstu_hackathon.Platform.Outbox.{enqueue_event, insert_audit_log}
use pstu_hackathon.Platform.Idempotency.{
  ClaimInput, find_key, claim_found, claim_idempotency_key, complete_idempotency_key,
}
use pstu_hackathon.Auth.Pin.{count_failed_attempt, forget_failures}
use pstu_hackathon.Ledger.{insert_movement}
use pstu_hackathon.Ledger.Aside.{Aside, posting-Keeps}
use pstu_hackathon.Ledger.Steady.{Steady, any_claim}

-- the state with other users, books, keys, events and audit rows
abbrev pub with_shared :
    State
    → ℕ
    → List User
    → List Account
    → List Transfer
    → List Entry
    → List IdempotencyKey
    → List OutboxEvent
    → List AuditLog
    → List Hook
    → State
with_shared s n us as' ts es ks evs logs hs = record {
  db = record s.db {
    next_id = n;
    users = us;
    accounts = as';
    transfers = ts;
    ledger_entries = es;
    idempotency_keys = ks;
    outbox_events = evs;
    audit_logs = logs;
  };
  hooks = hs;
}

module _ {P : State → Type 0}
    (k : (s : State) (n : ℕ) (us : List User) (as' : List Account) (ts : List Transfer)
        (es : List Entry) (ks : List IdempotencyKey) (evs : List OutboxEvent) (logs : List AuditLog)
        (hs : List Hook)
      → s.db.next_id ≤ n
      → P s
      → P (with_shared s n us as' ts es ks evs logs hs)) where
  at_once :
      (s : State) (us : List User) (as' : List Account) (ks : List IdempotencyKey)
      (logs : List AuditLog) (hs : List Hook)
      → P s
      → P (
          with_shared s s.db.next_id us as' s.db.transfers s.db.ledger_entries ks s.db.outbox_events
            logs hs)
  at_once s us as' ks logs hs = k s s.db.next_id us as' _ _ ks _ logs hs (omega arith)

  next :
      (s : State) (ts : List Transfer) (es : List Entry) (ks : List IdempotencyKey)
      (evs : List OutboxEvent)
      → P s
      → P (
          with_shared s
            (s.db.next_id + 1)
            s.db.users
            s.db.accounts
            ts
            es
            ks
            evs
            s.db.audit_logs
            s.hooks)
  next s ts es ks evs = k s (s.db.next_id + 1) _ _ ts es ks evs _ _ (omega arith)

  claimed :
      (input : ClaimInput) (now : ℕ) (found : Option IdempotencyKey) (s : State)
      → P s
      → P (claim_found input now found s).1
  unfolding claim_found
  claimed input now none s h = next s s.db.transfers s.db.ledger_entries _ s.db.outbox_events h
  claimed input now (some j) s h = h

  aside : Aside P
  unfolding insert_movement
  aside = record {
    hooks = λ hs s h. at_once s s.db.users s.db.accounts s.db.idempotency_keys s.db.audit_logs hs h;
    accounts = λ as' s h. at_once s s.db.users as' s.db.idempotency_keys s.db.audit_logs s.hooks h;
    movement = λ c reference x y. record {
      at = λ env s h. next s _ _ s.db.idempotency_keys s.db.outbox_events h;
    };
  }

  pub apart : Steady P (λ id. Unit)
  unfolding enqueue_event insert_audit_log claim_idempotency_key complete_idempotency_key
      count_failed_attempt forget_failures
  apart = record {
    hooks = λ hs s h. at_once s s.db.users s.db.accounts s.db.idempotency_keys s.db.audit_logs hs h;
    event = λ e. record {
      at = λ env s h. next s s.db.transfers s.db.ledger_entries s.db.idempotency_keys _ h;
    };
    audit = λ a. record {
      at = λ env s h. at_once s s.db.users s.db.accounts s.db.idempotency_keys _ s.hooks h;
    };
    claim = λ input. record {
      at = λ env s h.
          claimed input env.now (find_key input.user_id input.key s.db.idempotency_keys) s h;
    };
    creation = λ input env s h. any_claim (claim_idempotency_key input env s).0;
    completion = λ id status body c. record {
      at = λ env s h. at_once s s.db.users s.db.accounts _ s.db.audit_logs s.hooks h;
    };
    posting = posting-Keeps aside;
    failed = λ id. record {
      at = λ env s h. at_once s _ s.db.accounts s.db.idempotency_keys s.db.audit_logs s.hooks h;
    };
    forgotten = λ id. record {
      at = λ env s h. at_once s _ s.db.accounts s.db.idempotency_keys s.db.audit_logs s.hooks h;
    };
  }
