-- ===== src/App/Tables.antt =====
-- A property of the transfers and the requests alone is steady if it survives new identifiers and new
-- transfers.
use pstu_hackathon.Base.{ℕ, ◌+◌, ◌≤◌, arith, Option, none, some, List, ◌∷◌}
use pstu_hackathon.Shared.Text.{Text}
use pstu_hackathon.Platform.Schema.{Transfer, MoneyRequest, Occurrence}
use pstu_hackathon.Platform.Database.{IdempotencyKey}
use pstu_hackathon.Platform.Action.{State}
use pstu_hackathon.Platform.Outbox.{enqueue_event, insert_audit_log}
use pstu_hackathon.Platform.Idempotency.{
  ClaimInput, find_key, claim_found, claim_idempotency_key, complete_idempotency_key,
}
use pstu_hackathon.Auth.Pin.{count_failed_attempt, forget_failures}
use pstu_hackathon.Ledger.{PostDoubleEntryCommand, transfer_row, insert_movement}
use pstu_hackathon.Ledger.Aside.{Aside, posting-Keeps}
use pstu_hackathon.Ledger.Steady.{Steady, any_claim}
use pstu_hackathon.Split.Steady.{SplitSteady, unseen}

-- `Q` of the next identifier, the transfers and the requests
pub record Grows (Q : ℕ → List Transfer → List MoneyRequest → List Occurrence → Type 0)
    : Type 0 where
  pub later :
      {n m : ℕ} {ts : List Transfer} {rs : List MoneyRequest} {os : List Occurrence}
      → n ≤ m
      → Q n ts rs os
      → Q m ts rs os
  pub posted :
      {n : ℕ} {ts : List Transfer} {rs : List MoneyRequest} {os : List Occurrence}
      (c : PostDoubleEntryCommand) (reference : Text) (now : ℕ)
      → Q n ts rs os
      → Q (n + 1) (transfer_row n c reference now ∷ ts) rs os

module _ (Q : ℕ → List Transfer → List MoneyRequest → List Occurrence → Type 0) where
  abbrev pub OnTables : State → Type 0
  OnTables s = Q s.db.next_id s.db.transfers s.db.money_requests s.db.schedule_occurrences

module _ {Q : ℕ → List Transfer → List MoneyRequest → List Occurrence → Type 0} (g : Grows Q) where
  claim_found-OnTables :
      (input : ClaimInput) (now : ℕ) (found : Option IdempotencyKey) (s : State)
      → OnTables Q s
      → OnTables Q (claim_found input now found s).1
  unfolding claim_found
  claim_found-OnTables input now none s h = g.later (omega arith) h
  claim_found-OnTables input now (some k) s h = h

  aside : Aside (OnTables Q)
  unfolding insert_movement
  aside = record {
    hooks = λ hs s h. h;
    accounts = λ as' s h. h;
    movement = λ c reference x y. record { at = λ env s h. g.posted c reference env.now h };
  }

  pub OnTables-Steady : Steady (OnTables Q) (λ id. Unit)
  unfolding enqueue_event insert_audit_log claim_idempotency_key complete_idempotency_key
      count_failed_attempt forget_failures
  OnTables-Steady = record {
    hooks = λ hs s h. h;
    event = λ e. record { at = λ env s h. g.later (omega arith) h };
    audit = λ a. record { at = λ env s h. h };
    claim = λ input. record {
      at = λ env s h.
          claim_found-OnTables input env.now
            (find_key input.user_id input.key s.db.idempotency_keys) s h;
    };
    creation = λ input env s h. any_claim (claim_idempotency_key input env s).0;
    completion = λ id status body c. record { at = λ env s h. h };
    posting = posting-Keeps aside;
    failed = λ id. record { at = λ env s h. h };
    forgotten = λ id. record { at = λ env s h. h };
  }

  pub OnTables-SplitSteady : SplitSteady (OnTables Q)
  OnTables-SplitSteady = unseen (λ s n bs le h. g.later le h)
