-- ===== src/Transfer.antt =====
-- backend/src/modules/transfers/transfer.service.ts: sending money. The audit row's metadata, the
-- addresses of the caller and the log lines are not modelled.
pub mod Repo
pub mod Velocity
pub mod Steady
pub mod Books
pub mod Recorded
use pstu_hackathon.Base.{
  ℕ, ◌+◌, Bool, true, false, ◌&&◌, ◌||◌, not, Option, none, some, List, [], ◌∷◌, ltb, ◌==◌,
  if◌then◌else◌,
}
use pstu_hackathon.Base.Int.{ℤ, pos, ◌+ℤ◌, ltb_ℤ}
use pstu_hackathon.Shared.Text.{Text}
use pstu_hackathon.Shared.Money.{money}
use pstu_hackathon.Platform.Errors.{ErrorCode, AppError, failure}
use pstu_hackathon.Platform.Schema.{UserStatus, TransferType, EventType, AggregateType, AuditAction}
use pstu_hackathon.Platform.Database.{Body, TransferReceipt, Payload, no_payload, Party}
use pstu_hackathon.Platform.Action.{
  Env, Hook, Tx, pure, throw, or_throw, ask, throw_if, when, ◌>>=◌, ◌>>◌,
}
use pstu_hackathon.Platform.Transaction.{World, Handler, with_transaction}
use pstu_hackathon.Platform.Outbox.{enqueue_event, insert_audit_log, track_write}
use pstu_hackathon.Platform.Idempotency.{
  IdempotencyClaim, claimed, replay, mismatch, claim_idempotency_key, complete_idempotency_key,
}
use pstu_hackathon.Platform.Canonical.{Json, hash_request, codes}
use pstu_hackathon.Auth.Pin.{verify_pin, is_active}
use pstu_hackathon.Ledger.{PostedTransfer, post_double_entry, after_commit}
use Repo.{PayeeAccount, find_payee_by_phone, find_account_id_for_user, outbound_in_window}
use Velocity.{enforce_velocity, is_anomalous}

pub record CreateTransferInput : Type 0 where
  pub to_phone : ℕ
  pub amount_minor : ℤ
  pub pin : Text
  pub note : Option Text

pub record Outcome : Type 0 where
  pub status : ℕ
  pub body : Body
  pub replayed : Bool

abbrev pub endpoint : Text
endpoint = codes "POST /api/v1/transfers"

-- a payee who is there and active
abbrev pub active_payee : Option PayeeAccount → Option PayeeAccount
active_payee none = none
active_payee (some p) = if is_active p.user_status then some p else none

abbrev pub receipt : Env → PostedTransfer → PayeeAccount → TransferReceipt
receipt env posted payee = record {
  alert = is_anomalous env posted.amount_minor;
  reference = posted.reference;
  type = posted.type;
  amount = money posted.amount_minor;
  note = posted.note;
  created_at = posted.created_at;
  counterparty = record { name = payee.name; phone = some payee.phone };
  balance = money posted.sender_balance_after;
}

-- the events and the audit row of a transfer, in the same transaction
unfoldable pub announce : ℕ → PostedTransfer → PayeeAccount → Tx (Unit {0})
announce sender posted payee = do
  env ← ask
  enqueue_event (record {
    event_type = EventType.money_received;
    aggregate_type = AggregateType.transfer;
    aggregate_id = posted.id;
    payload = record no_payload {
      recipient_user_id = some payee.user_id;
      amount_minor = some posted.amount_minor;
      reference = some posted.reference;
    };
  })
  track_write (some sender ∷ some payee.user_id ∷ [])
  insert_audit_log (record {
    actor_user_id = some sender;
    action = AuditAction.transfer_sent;
    entity_type = AggregateType.transfer;
    entity_id = posted.id;
  })
  when (is_anomalous env posted.amount_minor) (do
    enqueue_event (record {
      event_type = EventType.security_alert;
      aggregate_type = AggregateType.transfer;
      aggregate_id = posted.id;
      payload = record no_payload {
        user_id = some sender;
        amount_minor = some posted.amount_minor;
        reference = some posted.reference;
      };
    })
    after_commit (Hook.send_security_alert sender posted.reference posted.amount_minor))

-- the body of the transaction once the key is claimed
unfoldable pub transfer_claimed : ℕ → CreateTransferInput → ℕ → Tx Outcome
unfolding announce
transfer_claimed sender input claim_id = do
  env ← ask
  account ← find_account_id_for_user sender
  sender_account ← or_throw account (failure ErrorCode.not_found)
  enforce_velocity sender_account
  found ← find_payee_by_phone input.to_phone
  payee ← or_throw (active_payee found) (failure ErrorCode.not_found)
  throw_if (payee.user_id == sender) (failure ErrorCode.self_transfer)
  spent ← outbound_in_window sender_account
  throw_if (ltb_ℤ (pos env.config.daily_transfer_limit_minor) (spent +ℤ input.amount_minor))
      (failure ErrorCode.limit_exceeded)
  posted ← post_double_entry (record {
    from_account_id = sender_account;
    to_account_id = payee.account_id;
    amount_minor = input.amount_minor;
    type = TransferType.p2p;
    note = input.note;
    idempotency_key_id = some claim_id;
    reversal_of = none;
  })
  announce sender posted payee
  complete_idempotency_key claim_id 201 (Body.receipt (receipt env posted payee))
  pure (record { status = 201; body = Body.receipt (receipt env posted payee); replayed = false })

-- `claim.kind`: a mismatch throws, a replay answers from the key, and a claim does the work.
unfoldable pub on_claim : (ℕ → Tx Outcome) → IdempotencyClaim → Tx Outcome
on_claim work mismatch = throw (failure ErrorCode.idempotency_key_reuse)
on_claim work (replay status body) = pure (record { status = status; body = body; replayed = true })
on_claim work (claimed id) = work id

-- The transaction of every idempotent endpoint: claim the key first, then work.
unfoldable pub idempotently : ℕ → ℕ → ℕ → (ℕ → Tx Outcome) → Tx Outcome
unfolding on_claim
idempotently user key hash work = do
  claim ← claim_idempotency_key (record { user_id = user; key = key; request_hash = hash })
  on_claim work claim

unfoldable pub send_money : ℕ → ℕ → CreateTransferInput → Json → Handler Outcome
unfolding transfer_claimed idempotently
send_money sender key input raw_body = do
  env ← ask
  throw_if (ltb_ℤ input.amount_minor (pos env.config.min_transfer_minor))
      (failure ErrorCode.validation_error)
  throw_if (ltb_ℤ (pos env.config.max_transfer_minor) input.amount_minor)
      (failure ErrorCode.limit_exceeded)
  verify_pin sender input.pin
  with_transaction
      (idempotently sender key (hash_request env endpoint raw_body) (transfer_claimed sender input))
