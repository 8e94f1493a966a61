-- ===== src/Split.antt =====
-- backend/src/modules/splits/split.service.ts: a bill that several people share, each of whom is asked
-- for a share by an ordinary request.
pub mod Repo
pub mod Steady
pub mod Whole
pub mod Progress
use pstu_hackathon.Base.{
  ℕ, zero, suc, ◌+◌, ◌*◌, Bool, true, false, ◌&&◌, ◌||◌, not, Option, none, some, List, [], ◌∷◌,
  ltb, ◌==◌, map, length, if◌then◌else◌,
}
use pstu_hackathon.Base.Int.{ℤ, pos, ◌+ℤ◌, ◌-ℤ◌}
use pstu_hackathon.Base.Table.{select_where}
use pstu_hackathon.Shared.Text.{Text}
use pstu_hackathon.Shared.Money.{MoneyDto, money}
use pstu_hackathon.Shared.Allocate.{sum, allocate_evenly, allocate_by_weight}
use pstu_hackathon.Platform.Errors.{ErrorCode, failure, fault}
use pstu_hackathon.Platform.Schema.{
  User, BillSplit, RequestStatus, EventType, AggregateType, AuditAction,
}
use pstu_hackathon.Platform.Database.{Body, SplitLegDto, SplitDto, no_payload, Party}
use pstu_hackathon.Platform.Action.{Env, Tx, pure, throw, or_throw, ask, throw_if, ◌>>=◌, ◌>>◌}
use pstu_hackathon.Platform.Transaction.{Handler, with_read_transaction, with_transaction}
use pstu_hackathon.Platform.Outbox.{enqueue_event, insert_audit_log}
use pstu_hackathon.Platform.Idempotency.{complete_idempotency_key}
use pstu_hackathon.Platform.Canonical.{Json, hash_request, codes}
use pstu_hackathon.Transfer.{Outcome, idempotently, active_payee}
use pstu_hackathon.Transfer.Repo.{PayeeAccount, find_payee_by_phone, find_user_by_id}
use pstu_hackathon.Request.{expiry}
use pstu_hackathon.Request.Repo.{insert_request}
use Repo.{insert_split, find_split, SplitLeg, list_legs, is_accepted, SplitSummary, list_splits}

pub record Participant : Type 0 where
  pub phone : ℕ
  pub weight : Option ℕ

-- split.schemas.ts: the total and the weights are positive integers.
pub record CreateSplitInput : Type 0 where
  pub total_amount_minor : ℕ
  pub description : Text
  pub participants : List Participant
  pub include_self : Bool
  pub self_weight : ℕ
  pub expires_in_days : ℕ

abbrev pub create_endpoint : Text
create_endpoint = codes "POST /api/v1/splits"

unfoldable pub leg_dto : SplitLeg → SplitLegDto
leg_dto l = record {
  request_id = l.request_id;
  payer = record { name = l.payer_name; phone = some l.payer_phone };
  amount = money l.amount_minor;
  status = l.status;
  settled_reference = l.settled_reference;
}

-- `legs.reduce((sum, leg) => sum + leg.amountMinor, 0n)`
unfoldable pub sum_legs : List SplitLeg → ℤ
sum_legs [] = pos 0
sum_legs (l ∷ ls) = l.amount_minor +ℤ sum_legs ls

unfoldable pub split_dto : BillSplit → List SplitLeg → SplitDto
unfolding sum_legs leg_dto
split_dto b legs =
    let requested = sum_legs legs in
    let collected = sum_legs (select_where (λ l. is_accepted l.status) legs) in
    record {
      id = b.id;
      description = b.description;
      total = money b.total_amount_minor;
      your_share = money (b.total_amount_minor -ℤ requested);
      requested = money requested;
      collected = money collected;
      outstanding = money (requested -ℤ collected);
      participant_count = b.participant_count;
      created_at = b.created_at;
      legs = map leg_dto legs;
    }

abbrev pub with_weight : Option ℕ → Option (List ℤ) → Option (List ℤ)
with_weight none ws = none
with_weight (some w) none = none
with_weight (some w) (some ws) = some (pos w ∷ ws)

-- the weights, if every participant has one
unfoldable pub all_weights : List Participant → Option (List ℤ)
all_weights [] = some []
all_weights (p ∷ ps) = with_weight p.weight (all_weights ps)

abbrev pub own_part : Bool → ℕ
own_part b = if b then 1 else 0

-- The creator's own share comes first.
abbrev pub with_own : CreateSplitInput → List ℤ → List ℤ
with_own input ws = if input.include_self then pos input.self_weight ∷ ws else ws

abbrev pub allocate_weights : CreateSplitInput → Option (List ℤ) → Option (List ℕ)
allocate_weights input (some ws) = allocate_by_weight input.total_amount_minor (with_own input ws)
allocate_weights input none =
    allocate_evenly (pos input.total_amount_minor)
      (pos (length input.participants + own_part input.include_self))

unfoldable pub allocate : CreateSplitInput → Option (List ℕ)
unfolding all_weights
allocate input = allocate_weights input (all_weights input.participants)

-- `shares.slice(1)`
abbrev pub rest_of : List ℕ → List ℕ
rest_of [] = []
rest_of (x ∷ xs) = xs

abbrev pub leg_shares : Bool → List ℕ → List ℕ
leg_shares include_self shares = if include_self then rest_of shares else shares

abbrev pub any_below : ℕ → List ℕ → Bool
any_below minimum [] = false
any_below minimum (x ∷ xs) = ltb x minimum || any_below minimum xs

unfoldable pub resolve_payer : ℕ → Participant → Tx PayeeAccount
resolve_payer creator p = do
  found ← find_payee_by_phone p.phone
  payer ← or_throw (active_payee found) (failure ErrorCode.not_found)
  throw_if (payer.user_id == creator) (failure ErrorCode.validation_error)
  pure payer

-- Everyone is looked up first.
unfoldable pub resolve : ℕ → List Participant → Tx (List PayeeAccount)
unfolding resolve_payer
resolve creator [] = pure []
resolve creator (p ∷ ps) = do
  payer ← resolve_payer creator p
  payers ← resolve creator ps
  pure (payer ∷ payers)

unfoldable pub create_leg : ℕ → CreateSplitInput → BillSplit → ℕ → PayeeAccount → ℕ → Tx SplitLeg
create_leg creator input b expires_at payer amount = do
  created ← insert_request (record {
    requester_user_id = creator;
    payer_user_id = payer.user_id;
    amount_minor = pos amount;
    note = some input.description;
    expires_at = expires_at;
    split_id = some b.id;
  })
  enqueue_event (record {
    event_type = EventType.request_created;
    aggregate_type = AggregateType.money_request;
    aggregate_id = created.id;
    payload = record no_payload {
      request_id = some created.id;
      requester_user_id = some creator;
      payer_user_id = some payer.user_id;
      amount_minor = some (pos amount);
    };
  })
  pure (record {
    request_id = created.id;
    payer_user_id = payer.user_id;
    payer_name = payer.name;
    payer_phone = payer.phone;
    amount_minor = pos amount;
    status = RequestStatus.pending;
    settled_reference = none;
  })

-- The shares go by position; a payer without one is an Error of the code.
unfoldable pub create_legs :
    ℕ → CreateSplitInput → BillSplit → ℕ → List PayeeAccount → List ℕ → Tx (List SplitLeg)
unfolding create_leg
create_legs creator input b expires_at [] xs = pure []
create_legs creator input b expires_at (p ∷ ps) [] = throw fault
create_legs creator input b expires_at (p ∷ ps) (x ∷ xs) = do
  leg ← create_leg creator input b expires_at p x
  legs ← create_legs creator input b expires_at ps xs
  pure (leg ∷ legs)

unfoldable pub split_claimed : ℕ → CreateSplitInput → List ℕ → ℕ → Tx Outcome
unfolding resolve create_legs split_dto
split_claimed creator input shares claim_id = do
  env ← ask
  row ← find_user_by_id creator
  user ← or_throw row (failure ErrorCode.not_found)
  payers ← resolve creator input.participants
  b ← insert_split (record {
    creator_user_id = creator;
    total_amount_minor = pos input.total_amount_minor;
    description = input.description;
    participant_count = length input.participants + own_part input.include_self;
  })
  legs ← create_legs creator input b (expiry env input.expires_in_days) payers shares
  insert_audit_log (record {
    actor_user_id = some creator;
    action = AuditAction.split_created;
    entity_type = AggregateType.bill_split;
    entity_id = b.id;
  })
  let body = Body.split_body (split_dto b legs)
  complete_idempotency_key claim_id 201 body
  pure (record { status = 201; body = body; replayed = false })

unfoldable pub create_split : ℕ → ℕ → CreateSplitInput → Json → Handler Outcome
unfolding allocate split_claimed
create_split creator key input raw_body = do
  env ← ask
  shares ← or_throw (allocate input) fault
  throw_if (not (sum shares == input.total_amount_minor)) (failure ErrorCode.internal)
  throw_if (any_below env.config.min_transfer_minor (leg_shares input.include_self shares))
      (failure ErrorCode.validation_error)
  with_transaction (
      idempotently creator key (hash_request env create_endpoint raw_body)
        (split_claimed creator input (leg_shares input.include_self shares)))

abbrev pub is_payer : ℕ → List SplitLeg → Bool
is_payer viewer [] = false
is_payer viewer (l ∷ ls) = (l.payer_user_id == viewer) || is_payer viewer ls

unfoldable pub get_split_tx : ℕ → ℕ → Tx SplitDto
unfolding split_dto
get_split_tx viewer id = do
  row ← find_split id
  b ← or_throw row (failure ErrorCode.not_found)
  legs ← list_legs id
  throw_if (not ((b.creator_user_id == viewer) || is_payer viewer legs))
      (failure ErrorCode.not_found)
  pure (split_dto b legs)

unfoldable pub get_split : ℕ → ℕ → Handler SplitDto
unfolding get_split_tx
get_split viewer id = with_read_transaction (get_split_tx viewer id)

pub record SplitSummaryDto : Type 0 where
  pub id : ℕ
  pub description : Text
  pub total : MoneyDto
  pub collected : MoneyDto
  pub outstanding : MoneyDto
  pub settled_count : ℕ
  pub leg_count : ℕ
  pub created_at : ℕ

unfoldable pub summary_dto : SplitSummary → SplitSummaryDto
summary_dto row = record {
  id = row.split.id;
  description = row.split.description;
  total = money row.split.total_amount_minor;
  collected = money row.collected_minor;
  outstanding = money row.outstanding_minor;
  settled_count = row.settled_count;
  leg_count = row.leg_count;
  created_at = row.split.created_at;
}

unfoldable pub list_my_splits : ℕ → ℕ → Handler (List SplitSummaryDto)
unfolding summary_dto
list_my_splits creator limit = do
  rows ← with_read_transaction (list_splits creator limit)
  pure (map summary_dto rows)
