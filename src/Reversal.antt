-- ===== src/Reversal.antt =====
-- backend/src/modules/transfers/reversal.service.ts: undoing a transfer by a second one.
pub mod Steady
pub mod Books
use pstu_hackathon.Base.{
  leb, ℕ, ◌+◌, ◌-◌, ◌*◌, ◌/◌, Bool, true, false, ◌&&◌, ◌||◌, not, Option, none, some, List, [], ◌∷◌,
  ◌++◌, ltb, ◌==◌, is_id, if◌then◌else◌,
}
use pstu_hackathon.Base.Int.{ℤ}
use pstu_hackathon.Base.Table.{find, modify, first_where}
use pstu_hackathon.Shared.Text.{Text, eq_text}
use pstu_hackathon.Shared.Money.{money}
use pstu_hackathon.Ledger.Reference.{reference_date}
use pstu_hackathon.Platform.Errors.{ErrorCode, failure}
use pstu_hackathon.Platform.Schema.{
  Account, Transfer, TransferType, TransferStatus, EventType, AggregateType, AuditAction,
}
use pstu_hackathon.Platform.Database.{Db, Body, ReversalResult, no_payload}
use pstu_hackathon.Platform.Action.{
  Env, State, Result, ok, err, Tx, pure, throw, gets, or_throw, ask, throw_if, ◌>>=◌, ◌>>◌,
}
use pstu_hackathon.Platform.Transaction.{World, Handler, with_transaction}
use pstu_hackathon.Platform.Outbox.{enqueue_event, insert_audit_log, track_write}
use pstu_hackathon.Platform.Idempotency.{complete_idempotency_key}
use pstu_hackathon.Platform.Canonical.{Json, hash_request, codes}
use pstu_hackathon.Auth.Pin.{verify_pin}
use pstu_hackathon.Ledger.{PostedTransfer, post_double_entry, account_key, transfer_key}
use pstu_hackathon.Transfer.{Outcome, idempotently}
use pstu_hackathon.Transfer.Repo.{is_completed}

pub record OriginalTransfer : Type 0 where
  pub row : Transfer
  pub sender_user_id : Option ℕ
  pub recipient_user_id : Option ℕ

abbrev pub owner_of : ℕ → List Account → Option (Option ℕ)
owner_of id accounts = elim (find account_key id accounts) [ none ↦ none | some a ↦ some a.user_id ]

-- the row joined with the two accounts
abbrev pub join_owners : Transfer → Option (Option ℕ) → Option (Option ℕ) → Option OriginalTransfer
join_owners t none r = none
join_owners t (some s) none = none
join_owners t (some s) (some r) =
    some (record { row = t; sender_user_id = s; recipient_user_id = r })

-- The day that a reference names, as a condition on the instant of a row in microseconds.
abbrev pub on_day : Env → Option (ℕ × ℕ × ℕ) → ℕ → Bool
on_day env none created_at = true
on_day env (some day) created_at =
    leb (env.date_utc day * 1000) created_at
    && ltb created_at ((env.date_utc day + 24 * 60 * 60 * 1000) * 1000)

-- `loadOriginal`. The day is that of the clock of the process, and `created_at` of the database's.
unfoldable pub find_original : Env → Text → Db → Option OriginalTransfer
unfolding reference_date
find_original env reference db =
    elim (first_where
      (λ (t : Transfer).
        eq_text t.reference reference && on_day env (reference_date reference) t.created_at)
      db.transfers) [
        | none ↦ none
        | some t ↦
            join_owners t (owner_of t.from_account_id db.accounts)
              (owner_of t.to_account_id db.accounts)
      ]

-- the original, if it was sent by this user
abbrev pub sent_by : ℕ → Option OriginalTransfer → Option OriginalTransfer
sent_by actor none = none
sent_by actor (some o) = if is_id o.sender_user_id actor then some o else none

abbrev pub is_irreversible : TransferType → Bool
is_irreversible TransferType.mint = true
is_irreversible TransferType.reversal = true
is_irreversible TransferType.p2p = false
is_irreversible TransferType.request_settlement = false
is_irreversible TransferType.scheduled = false

-- `ageSeconds > REVERSAL_WINDOW_SECONDS`, in milliseconds
abbrev pub is_too_old : Env → Transfer → Bool
is_too_old env t =
    ltb (t.created_at / 1000 + env.config.reversal_window_seconds * 1000) env.date_now

abbrev pub mark_reversed : Transfer → Transfer
mark_reversed t = record t { status = TransferStatus.reversed }

-- the row that the guarded UPDATE matches
abbrev pub still_completed : ℕ → Option Transfer → Bool
still_completed created_at none = false
still_completed created_at (some t) = (t.created_at == created_at) && is_completed t.status

-- UPDATE transfers SET status = 'REVERSED' WHERE id = … AND created_at = … AND status = 'COMPLETED',
-- refused unless it changes one row
unfoldable pub claim_reversal : Transfer → Tx (Unit {0})
claim_reversal t env s =
    if still_completed t.created_at (find transfer_key t.id s.db.transfers)
    then (
      ok tt,
      record s {
        db = record s.db { transfers = modify transfer_key t.id mark_reversed s.db.transfers };
      },
    )
    else (err (failure ErrorCode.invalid_state), s)

abbrev pub reverse_endpoint : Text → Text
reverse_endpoint reference = codes "POST /api/v1/transfers/:reference/reverse" ++ (b':' ∷ reference)

abbrev pub reversal_note : Text → Text
reversal_note reference = codes "Reversal of " ++ reference

abbrev pub reversal_body : OriginalTransfer → PostedTransfer → Body
reversal_body o p = Body.reversal_result (record {
  reference = p.reference;
  reversal_of = o.row.reference;
  amount = money o.row.amount_minor;
  created_at = p.created_at;
  balance = money p.receiver_balance_after;
})

-- the transaction from the loaded original on
unfoldable pub undo : ℕ → ℕ → OriginalTransfer → Tx Outcome
undo actor claim_id o = do
  env ← ask
  throw_if (is_irreversible o.row.type) (failure ErrorCode.invalid_state)
  throw_if (not (is_completed o.row.status)) (failure ErrorCode.invalid_state)
  throw_if (is_too_old env o.row) (failure ErrorCode.invalid_state)
  claim_reversal o.row
  compensating ← post_double_entry (record {
    from_account_id = o.row.to_account_id;
    to_account_id = o.row.from_account_id;
    amount_minor = o.row.amount_minor;
    type = TransferType.reversal;
    note = some (reversal_note o.row.reference);
    idempotency_key_id = some claim_id;
    reversal_of = some o.row.id;
  })
  track_write (some actor ∷ o.recipient_user_id ∷ [])
  enqueue_event (record {
    event_type = EventType.transfer_reversed;
    aggregate_type = AggregateType.transfer;
    aggregate_id = o.row.id;
    payload = record no_payload {
      recipient_user_id = o.recipient_user_id;
      amount_minor = some o.row.amount_minor;
    };
  })
  insert_audit_log (record {
    actor_user_id = some actor;
    action = AuditAction.audited EventType.transfer_reversed;
    entity_type = AggregateType.transfer;
    entity_id = o.row.id;
  })
  complete_idempotency_key claim_id 201 (reversal_body o compensating)
  pure (record { status = 201; body = reversal_body o compensating; replayed = false })

unfoldable pub reversal_claimed : ℕ → Text → ℕ → Tx Outcome
unfolding undo claim_reversal
reversal_claimed actor reference claim_id = do
  env ← ask
  found ← gets (λ s. find_original env reference s.db)
  original ← or_throw (sent_by actor found) (failure ErrorCode.not_found)
  undo actor claim_id original

unfoldable pub reverse_transfer : ℕ → Text → ℕ → Text → Json → Handler Outcome
unfolding reversal_claimed
reverse_transfer actor reference key pin raw_body = do
  verify_pin actor pin
  env ← ask
  with_transaction (
      idempotently actor key (hash_request env (reverse_endpoint reference) raw_body)
        (reversal_claimed actor reference))
