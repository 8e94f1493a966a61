-- ===== src/Platform/Database.antt =====
-- The response bodies that are stored beside an idempotency key, the platform's own tables, and the
-- database as a whole.
use pstu_hackathon.Base.{ℕ, Bool, Option, none, List}
use pstu_hackathon.Base.Int.{ℤ}
use pstu_hackathon.Shared.Text.{Text}
use pstu_hackathon.Shared.Money.{MoneyDto}
use pstu_hackathon.Platform.Schema.{
  User, Account, Transfer, Entry, MoneyRequest, BillSplit, Schedule, Occurrence, TransferType,
  RequestStatus, ScheduleStatus, IntervalKind, EventType, AggregateType, AuditAction, OutboxStatus,
  KeyState, RefreshToken,
}

pub record Party : Type 0 where
  pub name : Text
  pub phone : Option ℕ

pub record TransferReceipt : Type 0 where
  pub alert : Bool
  pub reference : Text
  pub type : TransferType
  pub amount : MoneyDto
  pub note : Option Text
  pub created_at : ℕ
  pub counterparty : Party
  pub balance : MoneyDto

pub record ReversalResult : Type 0 where
  pub reference : Text
  pub reversal_of : Text
  pub amount : MoneyDto
  pub created_at : ℕ
  pub balance : MoneyDto

pub data Role : Type 0 where
  incoming outgoing : Role

pub record MoneyRequestDto : Type 0 where
  pub id : ℕ
  pub status : RequestStatus
  pub amount : MoneyDto
  pub note : Option Text
  pub role : Role
  pub counterparty : Party
  pub expires_at : ℕ
  pub created_at : ℕ
  pub settled_reference : Option Text
  pub decline_reason : Option Text

pub record SplitLegDto : Type 0 where
  pub request_id : ℕ
  pub payer : Party
  pub amount : MoneyDto
  pub status : RequestStatus
  pub settled_reference : Option Text

pub record SplitDto : Type 0 where
  pub id : ℕ
  pub description : Text
  pub total : MoneyDto
  pub your_share : MoneyDto
  pub requested : MoneyDto
  pub collected : MoneyDto
  pub outstanding : MoneyDto
  pub participant_count : ℕ
  pub created_at : ℕ
  pub legs : List SplitLegDto

pub record ScheduleDto : Type 0 where
  pub id : ℕ
  pub status : ScheduleStatus
  pub interval_kind : IntervalKind
  pub amount : MoneyDto
  pub note : Option Text
  pub payee : Party
  pub next_run_at : Option ℕ
  pub remaining_runs : Option ℕ
  pub last_run_at : Option ℕ
  pub created_at : ℕ

pub data Body : Type 0 where
  receipt : TransferReceipt → Body
  reversal_result : ReversalResult → Body
  request_body : MoneyRequestDto → Body
  accept_result : MoneyRequestDto → Text → MoneyDto → ℕ → MoneyDto → Body
  split_body : SplitDto → Body
  schedule_body : ScheduleDto → Body

pub record IdempotencyKey : Type 0 where
  pub id : ℕ
  pub user_id : ℕ
  pub key : ℕ
  pub request_hash : ℕ
  pub state : KeyState
  pub response_status : Option ℕ
  pub response_body : Option Body
  pub created_at : ℕ

-- The keys of an event's JSON payload that its consumers read; `none` for a key that is not there.
pub record Payload : Type 0 where
  pub user_id : Option ℕ
  pub recipient_user_id : Option ℕ
  pub requester_user_id : Option ℕ
  pub payer_user_id : Option ℕ
  pub owner_user_id : Option ℕ
  pub amount_minor : Option ℤ
  pub reference : Option Text
  pub request_id : Option ℕ
  pub schedule_id : Option ℕ

abbrev pub no_payload : Payload
no_payload = record {
  user_id = none;
  recipient_user_id = none;
  requester_user_id = none;
  payer_user_id = none;
  owner_user_id = none;
  amount_minor = none;
  reference = none;
  request_id = none;
  schedule_id = none;
}

pub record OutboxEvent : Type 0 where
  pub id : ℕ
  pub event_type : EventType
  pub aggregate_type : AggregateType
  pub aggregate_id : ℕ
  pub payload : Payload
  pub status : OutboxStatus
  pub attempts : ℕ
  pub next_attempt_at : ℕ
  pub created_at : ℕ

pub data NotificationType : Type 0 where
  welcome request_received : NotificationType
  about : EventType → NotificationType

-- Title, body and references are left out.
pub record Notification : Type 0 where
  pub user_id : ℕ
  pub event_id : ℕ
  pub type : NotificationType

pub record AuditLog : Type 0 where
  pub actor_user_id : Option ℕ
  pub action : AuditAction
  pub entity_type : AggregateType
  pub entity_id : ℕ

-- Every table, newest row first, and the next identifier that the database gives out.
pub record Db : Type 0 where
  pub next_id : ℕ
  pub users : List User
  pub accounts : List Account
  pub transfers : List Transfer
  pub ledger_entries : List Entry
  pub money_requests : List MoneyRequest
  pub bill_splits : List BillSplit
  pub scheduled_transfers : List Schedule
  pub schedule_occurrences : List Occurrence
  pub idempotency_keys : List IdempotencyKey
  pub outbox_events : List OutboxEvent
  pub notifications : List Notification
  pub refresh_tokens : List RefreshToken
  pub audit_logs : List AuditLog
