-- ===== src/Request.antt =====
-- backend/src/modules/requests/request.service.ts: asking for money, and paying, declining or
-- cancelling what was asked for.
pub mod Repo
pub mod Ending
pub mod Updates
pub mod Due
pub mod Steady
pub mod Aside
pub mod Books
use pstu_hackathon.Base.{
  ℕ, ◌+◌, ◌*◌, Bool, true, false, ◌&&◌, not, Option, none, some, List, [], ◌∷◌, ◌++◌, ltb, ◌==◌,
  if◌then◌else◌,
}
use pstu_hackathon.Base.Int.{ℤ, pos, ◌+ℤ◌, ltb_ℤ}
use pstu_hackathon.Base.Table.{find}
use pstu_hackathon.Shared.Text.{Text, to_string}
use pstu_hackathon.Shared.Money.{money}
use pstu_hackathon.Platform.Errors.{ErrorCode, AppError, failure}
use pstu_hackathon.Platform.Schema.{
  User, MoneyRequest, RequestStatus, TransferType, EventType, AggregateType, AuditAction,
}
use pstu_hackathon.Platform.Database.{Body, MoneyRequestDto, Role, no_payload, Party}
use pstu_hackathon.Platform.Action.{Env, Tx, pure, throw, or_throw, ask, throw_if, ◌>>=◌, ◌>>◌}
use pstu_hackathon.Platform.Transaction.{World, Handler, with_transaction}
use pstu_hackathon.Platform.Outbox.{enqueue_event, insert_audit_log, track_write}
use pstu_hackathon.Platform.Idempotency.{complete_idempotency_key}
use pstu_hackathon.Platform.Canonical.{Json, hash_request, codes}
use pstu_hackathon.Auth.Pin.{verify_pin}
use pstu_hackathon.Ledger.{PostedTransfer, post_double_entry}
use pstu_hackathon.Transfer.{Outcome, idempotently, active_payee}
use pstu_hackathon.Transfer.Repo.{
  PayeeAccount, find_payee_by_phone, find_account_id_for_user, find_user_by_id, outbound_in_window,
}
use Repo.{
  NewRequest, insert_request, find_request, lock_settleable_request, mark_accepted, transition,
  is_pending, Terminal, terminal_status, is_actor, expire_due,
}

pub record CreateRequestInput : Type 0 where
  pub from_phone : ℕ
  pub amount_minor : ℤ
  pub note : Option Text
  pub expires_in_days : ℕ

abbrev pub create_endpoint : Text
create_endpoint = codes "POST /api/v1/requests"

abbrev pub accept_endpoint : ℕ → Text
accept_endpoint id = codes "POST /api/v1/requests/:id/accept" ++ (b':' ∷ to_string id)

-- the name and the phone of a user, or those of nobody
abbrev pub party : Option User → Party
party none = record { name = codes "Unknown"; phone = none }
party (some u) = record { name = u.name; phone = some u.phone }

unfoldable pub to_dto : MoneyRequest → ℕ → Party → Option Text → MoneyRequestDto
to_dto r viewer counterparty settled = record {
  id = r.id;
  status = r.status;
  amount = money r.amount_minor;
  note = r.note;
  role = if r.payer_user_id == viewer then Role.incoming else Role.outgoing;
  counterparty = counterparty;
  expires_at = r.expires_at;
  created_at = r.created_at;
  settled_reference = settled;
  decline_reason = r.decline_reason;
}

-- the instant `days` days after `Date.now()`, in the database's microseconds
abbrev pub expiry : Env → ℕ → ℕ
expiry env days = (env.date_now + days * 86_400_000) * 1000

unfoldable pub request_claimed : ℕ → CreateRequestInput → ℕ → Tx Outcome
unfolding to_dto
request_claimed requester_id input claim_id = do
  env ← ask
  found ← find_payee_by_phone input.from_phone
  payer ← or_throw (active_payee found) (failure ErrorCode.not_found)
  throw_if (payer.user_id == requester_id) (failure ErrorCode.validation_error)
  row ← find_user_by_id requester_id
  requester ← or_throw row (failure ErrorCode.not_found)
  created ← insert_request (record {
    requester_user_id = requester_id;
    payer_user_id = payer.user_id;
    amount_minor = input.amount_minor;
    note = input.note;
    expires_at = expiry env input.expires_in_days;
    split_id = none;
  })
  enqueue_event (record {
    event_type = EventType.request_created;
    aggregate_type = AggregateType.money_request;
    aggregate_id = created.id;
    payload = record no_payload {
      request_id = some created.id;
      requester_user_id = some requester_id;
      payer_user_id = some payer.user_id;
      amount_minor = some created.amount_minor;
    };
  })
  insert_audit_log (record {
    actor_user_id = some requester_id;
    action = AuditAction.audited EventType.request_created;
    entity_type = AggregateType.money_request;
    entity_id = created.id;
  })
  let counterparty : Party = record { name = payer.name; phone = some payer.phone }
  let body = Body.request_body (to_dto created requester_id counterparty none)
  complete_idempotency_key claim_id 201 body
  pure (record { status = 201; body = body; replayed = false })

unfoldable pub create_request : ℕ → ℕ → CreateRequestInput → Json → Handler Outcome
unfolding request_claimed
create_request requester_id key input raw_body = do
  env ← ask
  throw_if (ltb_ℤ input.amount_minor (pos env.config.min_transfer_minor))
      (failure ErrorCode.validation_error)
  throw_if (ltb_ℤ (pos env.config.max_transfer_minor) input.amount_minor)
      (failure ErrorCode.limit_exceeded)
  with_transaction (
      idempotently requester_id key (hash_request env create_endpoint raw_body)
        (request_claimed requester_id input))

-- `explainUnsettleable`: the error for a request that could not be locked for settlement
unfoldable pub explain_unsettleable : ℕ → Option MoneyRequest → AppError
explain_unsettleable payer_id none = failure ErrorCode.not_found
explain_unsettleable payer_id (some r) =
    if r.payer_user_id == payer_id
    then failure ErrorCode.invalid_state
    else failure ErrorCode.not_found

abbrev pub accepted_dto : MoneyRequest → PostedTransfer → ℕ → Option User → MoneyRequestDto
accepted_dto r posted viewer requester =
    to_dto (record r { status = RequestStatus.accepted; settled_transfer_id = some posted.id })
      viewer (party requester) (some posted.reference)

-- the transaction of `acceptRequest` from the locked request on
unfoldable pub settle_request : ℕ → ℕ → MoneyRequest → Tx Outcome
unfolding to_dto
settle_request payer_id claim_id request = do
  env ← ask
  payer_row ← find_account_id_for_user payer_id
  requester_row ← find_account_id_for_user request.requester_user_id
  payer_account ← or_throw payer_row (failure ErrorCode.not_found)
  requester_account ← or_throw requester_row (failure ErrorCode.not_found)
  spent ← outbound_in_window payer_account
  throw_if (ltb_ℤ (pos env.config.daily_transfer_limit_minor) (spent +ℤ request.amount_minor))
      (failure ErrorCode.limit_exceeded)
  posted ← post_double_entry (record {
    from_account_id = payer_account;
    to_account_id = requester_account;
    amount_minor = request.amount_minor;
    type = TransferType.request_settlement;
    note = request.note;
    idempotency_key_id = some claim_id;
    reversal_of = none;
  })
  accepted ← mark_accepted request.id posted.id
  throw_if (not accepted) (failure ErrorCode.invalid_state)
  requester ← find_user_by_id request.requester_user_id
  enqueue_event (record {
    event_type = EventType.request_accepted;
    aggregate_type = AggregateType.money_request;
    aggregate_id = request.id;
    payload = record no_payload {
      request_id = some request.id;
      requester_user_id = some request.requester_user_id;
      payer_user_id = some payer_id;
      amount_minor = some request.amount_minor;
      reference = some posted.reference;
    };
  })
  track_write (some payer_id ∷ some request.requester_user_id ∷ [])
  insert_audit_log (record {
    actor_user_id = some payer_id;
    action = AuditAction.audited EventType.request_accepted;
    entity_type = AggregateType.money_request;
    entity_id = request.id;
  })
  let dto = accepted_dto request posted payer_id requester
  let body =
      Body.accept_result dto posted.reference (money posted.amount_minor) posted.created_at
        (money posted.sender_balance_after)
  complete_idempotency_key claim_id 200 body
  pure (record { status = 200; body = body; replayed = false })

unfoldable pub accept_claimed : ℕ → ℕ → ℕ → Tx Outcome
unfolding settle_request explain_unsettleable
accept_claimed payer_id request_id claim_id = do
  locked ← lock_settleable_request request_id payer_id
  existing ← find_request request_id
  request ← or_throw locked (explain_unsettleable payer_id existing)
  settle_request payer_id claim_id request

unfoldable pub accept_request : ℕ → ℕ → ℕ → Text → Json → Handler Outcome
unfolding accept_claimed
accept_request payer_id request_id key pin raw_body = do
  verify_pin payer_id pin
  env ← ask
  with_transaction (
      idempotently payer_id key (hash_request env (accept_endpoint request_id) raw_body)
        (accept_claimed payer_id request_id))
