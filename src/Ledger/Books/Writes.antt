-- ===== src/Ledger/Books/Writes.antt =====
-- The shared writes keep the books.
use pstu_hackathon.Base.{ℕ, ◌+◌, Option, none, some, arith}
use pstu_hackathon.Platform.Database.{IdempotencyKey}
use pstu_hackathon.Platform.Action.{State}
use pstu_hackathon.Platform.Outbox.{enqueue_event, insert_audit_log}
use pstu_hackathon.Platform.Idempotency.{
  ClaimInput, find_key, claim_found, claim_idempotency_key, complete_idempotency_key,
}
use pstu_hackathon.Auth.Pin.{count_failed_attempt, forget_failures}
use pstu_hackathon.Ledger.Books.{IsBalanced, Books-later}
use pstu_hackathon.Ledger.Books.Posted.{post_double_entry-Keeps}
use pstu_hackathon.Ledger.Steady.{Steady, any_claim}

claim_found-IsBalanced :
    (input : ClaimInput) (now : ℕ) (found : Option IdempotencyKey) (s : State)
    → IsBalanced s
    → IsBalanced (claim_found input now found s).1
unfolding claim_found
claim_found-IsBalanced input now none s h = Books-later (s.db.next_id + 1) (omega arith) h
claim_found-IsBalanced input now (some k) s h = h

pub IsBalanced-Steady : Steady IsBalanced (λ id. Unit)
unfolding enqueue_event insert_audit_log claim_idempotency_key complete_idempotency_key
    count_failed_attempt forget_failures
IsBalanced-Steady = record {
  hooks = λ hs s h. h;
  event = λ e. record { at = λ env s h. Books-later (s.db.next_id + 1) (omega arith) h };
  audit = λ a. record { at = λ env s h. h };
  claim = λ input. record {
    at = λ env s h.
        claim_found-IsBalanced input env.now
          (find_key input.user_id input.key s.db.idempotency_keys) s h;
  };
  creation = λ input env s h. any_claim (claim_idempotency_key input env s).0;
  completion = λ id status body c. record { at = λ env s h. h };
  posting = post_double_entry-Keeps;
  failed = λ id. record { at = λ env s h. h };
  forgotten = λ id. record { at = λ env s h. h };
}
