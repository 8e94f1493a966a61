-- ===== src/Ledger/Steady.antt =====
-- A property of the state that every shared write leaves true: the interface between what a property
-- says and the handlers that keep it.
use pstu_hackathon.Base.{ℕ, Option, List}
use pstu_hackathon.Platform.Database.{Body, AuditLog}
use pstu_hackathon.Platform.Action.{Env, Hook, State, Result, ok, err}
use pstu_hackathon.Platform.Action.Keeps.{Keeps, keeps_rules}
use pstu_hackathon.Platform.Outbox.{NewEvent, enqueue_event, insert_audit_log, track_write}
use pstu_hackathon.Platform.Idempotency.{
  IdempotencyClaim, claimed, replay, mismatch, ClaimInput, claim_idempotency_key,
  complete_idempotency_key,
}
use pstu_hackathon.Auth.Pin.{count_failed_attempt, forget_failures}
use pstu_hackathon.Ledger.{PostDoubleEntryCommand, after_commit, post_double_entry}

-- the key that a claim has created, if it has, is one of those in `C`
abbrev pub Creates : (ℕ → Type 0) → Result IdempotencyClaim → Type 0
Creates C (ok (claimed id)) = C id
Creates C (ok (replay status body)) = Unit
Creates C (ok mismatch) = Unit
Creates C (err e) = Unit

-- Every claim creates a key, where nothing is asked of it.
pub any_claim : (o : Result IdempotencyClaim) → Creates (λ id. Unit) o
any_claim (ok (claimed id)) = tt
any_claim (ok (replay status body)) = tt
any_claim (ok mismatch) = tt
any_claim (err e) = tt

-- `P` survives the shared writes. `C` holds of the keys whose completion it survives, and every key that
-- is claimed while `P` holds is one of them.
pub record Steady (P : State → Type 0) (C : ℕ → Type 0) : Type 0 where
  pub hooks : (hs : List Hook) (s : State) → P s → P (record s { hooks = hs })
  pub event : (e : NewEvent) → Keeps P (enqueue_event e)
  pub audit : (a : AuditLog) → Keeps P (insert_audit_log a)
  pub claim : (input : ClaimInput) → Keeps P (claim_idempotency_key input)
  pub creation :
      (input : ClaimInput) (env : Env) (s : State)
      → P s
      → Creates C (claim_idempotency_key input env s).0
  pub completion :
      (id status : ℕ) (body : Body) → C id → Keeps P (complete_idempotency_key id status body)
  pub posting : (c : PostDoubleEntryCommand) → Keeps P (post_double_entry c)
  pub failed : (id : ℕ) → Keeps P (count_failed_attempt id)
  pub forgotten : (id : ℕ) → Keeps P (forget_failures id)

module _ {P : State → Type 0} {C : ℕ → Type 0} (b : Steady P C) where
  pub enqueue_event-Keeps : (e : NewEvent) → Keeps P (enqueue_event e)
  enqueue_event-Keeps = b.event

  pub insert_audit_log-Keeps : (a : AuditLog) → Keeps P (insert_audit_log a)
  insert_audit_log-Keeps = b.audit

  pub complete_idempotency_key-Keeps :
      (id status : ℕ) (body : Body) → C id → Keeps P (complete_idempotency_key id status body)
  complete_idempotency_key-Keeps = b.completion

  pub post_double_entry-Keeps : (c : PostDoubleEntryCommand) → Keeps P (post_double_entry c)
  post_double_entry-Keeps = b.posting

  pub track_write-Keeps : (users : List (Option ℕ)) → Keeps P (track_write users)
  unfolding track_write
  track_write-Keeps users = record { at = λ env s h. b.hooks _ s h }

  pub after_commit-Keeps : (hook : Hook) → Keeps P (after_commit hook)
  unfolding after_commit pstu_hackathon.Platform.Action.update
  after_commit-Keeps hook = record { at = λ env s h. b.hooks _ s h }

pub ruleset steady_rules = (
  keeps_rules, enqueue_event-Keeps, insert_audit_log-Keeps, complete_idempotency_key-Keeps,
  post_double_entry-Keeps, track_write-Keeps, after_commit-Keeps,
)
