-- ===== src/Platform/Schema.antt =====
-- The tables of backend/migrations as the repositories read and write them: one record for each row,
-- in the fields that the code uses. Identifiers (uuid, bigserial) are numbers; so are opaque strings
-- that are only compared (a phone number, an idempotency key, a request hash, an occurrence key's
-- due instant). Instants of the database are in microseconds.
use pstu_hackathon.Base.{ℕ, Option}
use pstu_hackathon.Base.Int.{ℤ}
use pstu_hackathon.Shared.Text.{Text}

pub data AccountType : Type 0 where
  user system : AccountType

pub data AccountStatus : Type 0 where
  active frozen closed : AccountStatus

pub data UserStatus : Type 0 where
  active suspended : UserStatus

pub data TransferType : Type 0 where
  p2p mint request_settlement reversal scheduled : TransferType

pub data TransferStatus : Type 0 where
  completed reversed : TransferStatus

pub data Direction : Type 0 where
  debit credit : Direction

pub data RequestStatus : Type 0 where
  pending accepted declined cancelled expired : RequestStatus

pub data KeyState : Type 0 where
  in_progress completed : KeyState

pub data OutboxStatus : Type 0 where
  pending processed failed : OutboxStatus

pub data ScheduleStatus : Type 0 where
  active paused completed cancelled : ScheduleStatus

pub data IntervalKind : Type 0 where
  once daily weekly monthly : IntervalKind

pub data OccurrenceStatus : Type 0 where
  pending paid failed skipped : OccurrenceStatus

pub data EventType : Type 0 where
  user_registered money_sent money_received request_created request_accepted : EventType
  request_declined request_cancelled request_expired transfer_reversed : EventType
  schedule_paid schedule_failed schedule_skipped account_frozen account_unfrozen : EventType
  security_alert : EventType

pub data AggregateType : Type 0 where
  user transfer money_request scheduled_transfer account bill_split session : AggregateType

pub data AuditAction : Type 0 where
  transfer_sent : AuditAction
  audited : EventType → AuditAction
  split_created schedule_created user_login : AuditAction
  refresh_token_reuse_detected : AuditAction
  schedule_changed : ScheduleStatus → AuditAction

pub record User : Type 0 where
  pub id : ℕ
  pub phone : ℕ
  pub name : Text
  pub password_hash : Text
  pub pin_hash : Text
  pub failed_pin_attempts : ℕ
  pub pin_locked_until : Option ℕ
  pub status : UserStatus

pub record Account : Type 0 where
  pub id : ℕ
  pub user_id : Option ℕ
  pub type : AccountType
  pub status : AccountStatus
  pub balance_minor : ℤ
  pub version : ℕ

pub record Transfer : Type 0 where
  pub id : ℕ
  pub reference : Text
  pub from_account_id : ℕ
  pub to_account_id : ℕ
  pub amount_minor : ℤ
  pub type : TransferType
  pub status : TransferStatus
  pub note : Option Text
  pub idempotency_key_id : Option ℕ
  pub reversal_of : Option ℕ
  pub created_at : ℕ

pub record Entry : Type 0 where
  pub transfer_id : ℕ
  pub account_id : ℕ
  pub direction : Direction
  pub amount_minor : ℤ
  pub balance_after : ℤ
  pub created_at : ℕ

pub record MoneyRequest : Type 0 where
  pub id : ℕ
  pub requester_user_id : ℕ
  pub payer_user_id : ℕ
  pub amount_minor : ℤ
  pub note : Option Text
  pub status : RequestStatus
  pub expires_at : ℕ
  pub settled_transfer_id : Option ℕ
  pub decline_reason : Option Text
  pub version : ℕ
  pub split_id : Option ℕ
  pub created_at : ℕ

pub record BillSplit : Type 0 where
  pub id : ℕ
  pub creator_user_id : ℕ
  pub total_amount_minor : ℤ
  pub description : Text
  pub participant_count : ℕ
  pub created_at : ℕ

pub record Schedule : Type 0 where
  pub id : ℕ
  pub owner_user_id : ℕ
  pub payee_user_id : ℕ
  pub amount_minor : ℤ
  pub note : Option Text
  pub interval_kind : IntervalKind
  pub next_run_at : ℕ
  pub remaining_runs : Option ℕ
  pub status : ScheduleStatus
  pub last_run_at : Option ℕ
  pub retry_after : Option ℕ
  pub created_at : ℕ

-- `occurrence_key` is `schedule_id:due_at`, which the pair stands for.
pub record Occurrence : Type 0 where
  pub id : ℕ
  pub schedule_id : ℕ
  pub due_at : ℕ
  pub status : OccurrenceStatus
  pub transfer_id : Option ℕ
  pub attempts : ℕ

pub record RefreshToken : Type 0 where
  pub id : ℕ
  pub user_id : ℕ
  pub family_id : ℕ
  pub token_hash : ℕ
  pub expires_at : ℕ
  pub revoked_at : Option ℕ
  pub replaced_by : Option ℕ
