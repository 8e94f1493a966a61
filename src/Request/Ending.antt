-- ===== src/Request/Ending.antt =====
-- `terminate` of backend/src/modules/requests/request.service.ts, which declines and cancels, and
-- backend/src/workers/request-expiry.worker.ts.
use pstu_hackathon.Base.{length, ℕ, Bool, true, false, not, Option, none, some, List, [], ◌∷◌}
use pstu_hackathon.Shared.Text.{Text}
use pstu_hackathon.Platform.Errors.{ErrorCode, failure}
use pstu_hackathon.Platform.Schema.{
  MoneyRequest, RequestStatus, EventType, AggregateType, AuditAction,
}
use pstu_hackathon.Platform.Database.{MoneyRequestDto, no_payload}
use pstu_hackathon.Platform.Action.{Tx, pure, or_throw, throw_if, ◌>>=◌, ◌>>◌}
use pstu_hackathon.Platform.Transaction.{Handler, with_transaction}
use pstu_hackathon.Platform.Outbox.{enqueue_event, insert_audit_log}
use pstu_hackathon.Transfer.Repo.{find_user_by_id}
use pstu_hackathon.Request.Repo.{find_request, transition, Terminal, is_actor, expire_due}
use pstu_hackathon.Request.{to_dto, party}

abbrev pub event_of : Terminal → EventType
event_of Terminal.decline = EventType.request_declined
event_of Terminal.cancel = EventType.request_cancelled

-- the other one of the two
abbrev pub other_of : Terminal → MoneyRequest → ℕ
other_of Terminal.decline r = r.requester_user_id
other_of Terminal.cancel r = r.payer_user_id

abbrev pub same_status : Terminal → RequestStatus → Bool
same_status Terminal.decline RequestStatus.declined = true
same_status Terminal.cancel RequestStatus.cancelled = true
same_status to s = false

-- nothing was updated: repeating what has already happened succeeds
unfoldable pub already : Terminal → ℕ → ℕ → Tx MoneyRequestDto
already to actor request_id = do
  row ← find_request request_id
  existing ← or_throw row (failure ErrorCode.not_found)
  throw_if (not (is_actor to actor existing)) (failure ErrorCode.not_found)
  throw_if (not (same_status to existing.status)) (failure ErrorCode.invalid_state)
  other ← find_user_by_id (other_of to existing)
  pure (to_dto existing actor (party other) none)

unfoldable pub updated_to : Terminal → ℕ → MoneyRequest → Tx MoneyRequestDto
updated_to to actor r = do
  counterparty ← find_user_by_id (other_of to r)
  enqueue_event (record {
    event_type = event_of to;
    aggregate_type = AggregateType.money_request;
    aggregate_id = r.id;
    payload = record no_payload {
      request_id = some r.id;
      requester_user_id = some r.requester_user_id;
      payer_user_id = some r.payer_user_id;
      amount_minor = some r.amount_minor;
    };
  })
  insert_audit_log (record {
    actor_user_id = some actor;
    action = AuditAction.audited (event_of to);
    entity_type = AggregateType.money_request;
    entity_id = r.id;
  })
  pure (to_dto r actor (party counterparty) none)

abbrev pub on_updated : Terminal → ℕ → ℕ → Option MoneyRequest → Tx MoneyRequestDto
on_updated to actor request_id none = already to actor request_id
on_updated to actor request_id (some r) = updated_to to actor r

unfoldable pub terminate_tx : ℕ → ℕ → Terminal → Option Text → Tx MoneyRequestDto
unfolding already updated_to
terminate_tx actor request_id to reason = do
  updated ← transition request_id to actor reason
  on_updated to actor request_id updated

unfoldable pub terminate : ℕ → ℕ → Terminal → Option Text → Handler MoneyRequestDto
unfolding terminate_tx
terminate actor request_id to reason = with_transaction (terminate_tx actor request_id to reason)

-- workers/request-expiry.worker.ts
unfoldable pub announce_expired : List MoneyRequest → Tx (Unit {0})
announce_expired [] = pure tt
announce_expired (r ∷ rs) = do
  enqueue_event (record {
    event_type = EventType.request_expired;
    aggregate_type = AggregateType.money_request;
    aggregate_id = r.id;
    payload = record no_payload {
      request_id = some r.id;
      requester_user_id = some r.requester_user_id;
      payer_user_id = some r.payer_user_id;
      amount_minor = some r.amount_minor;
    };
  })
  announce_expired rs

unfoldable pub expire_requests : ℕ → Handler ℕ
unfolding announce_expired
expire_requests batch_size =
    with_transaction
      (do expired ← expire_due batch_size; announce_expired expired; pure (length expired))
