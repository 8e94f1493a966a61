-- ===== src/Request/Steady.antt =====
-- Money requests keep a steady property that survives the writes to their table.
use pstu_hackathon.Base.{ℕ, Option, none, some, List, [], ◌∷◌}
use pstu_hackathon.Shared.Text.{Text}
use pstu_hackathon.Platform.Schema.{MoneyRequest}
use pstu_hackathon.Platform.Action.{State}
use pstu_hackathon.Platform.Action.Keeps.{Keeps, keeps_rules, bind-Keeps}
use pstu_hackathon.Platform.Canonical.{Json}
use pstu_hackathon.Ledger.Steady.{Steady, enqueue_event-Keeps}
use pstu_hackathon.Transfer.Steady.{
  OnWorld, with_transaction-Keeps, verify_pin-Keeps, idempotently-Keeps, transfer_rules,
}
use pstu_hackathon.Request.Repo.{
  NewRequest, Terminal, insert_request, find_request, lock_settleable_request, mark_accepted,
  transition, expire_due,
}
use pstu_hackathon.Request.{
  CreateRequestInput, request_claimed, create_request, settle_request, accept_claimed,
  accept_request,
}
use pstu_hackathon.Request.Ending.{
  already, updated_to, on_updated, terminate_tx, terminate, announce_expired, expire_requests,
}

-- `P` survives the writes to the table of requests.
pub record RequestSteady (P : State → Type 0) : Type 0 where
  pub insertion : (r : NewRequest) → Keeps P (insert_request r)
  pub acceptance : (id t : ℕ) → Keeps P (mark_accepted id t)
  pub ending :
      (id : ℕ) (to : Terminal) (actor : ℕ) (reason : Option Text)
      → Keeps P (transition id to actor reason)
  pub expiry : (limit : ℕ) → Keeps P (expire_due limit)

module _ {P : State → Type 0} where
  pub find_request-Keeps : (id : ℕ) → Keeps P (find_request id)
  unfolding find_request
  find_request-Keeps id = search keeps_rules

  pub lock_settleable_request-Keeps : (id p : ℕ) → Keeps P (lock_settleable_request id p)
  unfolding lock_settleable_request
  lock_settleable_request-Keeps id p = record { at = λ env s h. h }

module _ {P : State → Type 0} (q : RequestSteady P) where
  pub insert_request-Keeps : (r : NewRequest) → Keeps P (insert_request r)
  insert_request-Keeps = q.insertion

  pub mark_accepted-Keeps : (id t : ℕ) → Keeps P (mark_accepted id t)
  mark_accepted-Keeps = q.acceptance

  pub transition-Keeps :
      (id : ℕ) (to : Terminal) (actor : ℕ) (reason : Option Text)
      → Keeps P (transition id to actor reason)
  transition-Keeps = q.ending

  pub expire_due-Keeps : (limit : ℕ) → Keeps P (expire_due limit)
  expire_due-Keeps = q.expiry

pub ruleset request_rules = (
  transfer_rules, insert_request-Keeps, find_request-Keeps, lock_settleable_request-Keeps,
  mark_accepted-Keeps, transition-Keeps, expire_due-Keeps,
)

module _ {P : State → Type 0} {C : ℕ → Type 0} (b : Steady P C) (q : RequestSteady P) where
  request_claimed-Keeps :
      (u : ℕ) (input : CreateRequestInput) (id : ℕ) → C id → Keeps P (request_claimed u input id)
  unfolding request_claimed
  request_claimed-Keeps u input id c = search (request_rules) depth 40

  pub create_request-Keeps :
      (u key : ℕ) (input : CreateRequestInput) (raw : Json)
      → Keeps (OnWorld P) (create_request u key input raw)
  unfolding create_request
  create_request-Keeps u key input raw =
      search (keeps_rules, with_transaction-Keeps, idempotently-Keeps, request_claimed-Keeps) depth
        24

  settle_request-Keeps :
      (payer id : ℕ) (r : MoneyRequest) → C id → Keeps P (settle_request payer id r)
  unfolding settle_request
  settle_request-Keeps payer id r c = search (request_rules) depth 40

  accept_claimed-Keeps : (payer r id : ℕ) → C id → Keeps P (accept_claimed payer r id)
  unfolding accept_claimed
  accept_claimed-Keeps payer r id c = search (request_rules, settle_request-Keeps) depth 24

  pub accept_request-Keeps :
      (payer request key : ℕ) (pin : Text) (raw : Json)
      → Keeps (OnWorld P) (accept_request payer request key pin raw)
  unfolding accept_request
  accept_request-Keeps payer request key pin raw =
      search
        (
          keeps_rules, verify_pin-Keeps, with_transaction-Keeps, idempotently-Keeps,
          accept_claimed-Keeps,
        )
        depth 24

  already-Keeps : (to : Terminal) (actor id : ℕ) → Keeps P (already to actor id)
  unfolding already
  already-Keeps to actor id = search (request_rules) depth 24

  updated_to-Keeps :
      (to : Terminal) (actor : ℕ) (r : MoneyRequest) → Keeps P (updated_to to actor r)
  unfolding updated_to
  updated_to-Keeps to actor r = search (request_rules) depth 24

  on_updated-Keeps :
      (to : Terminal) (actor id : ℕ) (o : Option MoneyRequest) → Keeps P (on_updated to actor id o)
  on_updated-Keeps to actor id none = already-Keeps to actor id
  on_updated-Keeps to actor id (some r) = updated_to-Keeps to actor r

  terminate_tx-Keeps :
      (actor id : ℕ) (to : Terminal) (reason : Option Text)
      → Keeps P (terminate_tx actor id to reason)
  unfolding terminate_tx
  terminate_tx-Keeps actor id to reason = search (request_rules, on_updated-Keeps) depth 12

  pub terminate-Keeps :
      (actor id : ℕ) (to : Terminal) (reason : Option Text)
      → Keeps (OnWorld P) (terminate actor id to reason)
  unfolding terminate
  terminate-Keeps actor id to reason =
      with_transaction-Keeps b _ (terminate_tx-Keeps actor id to reason)

  announce_expired-Keeps : (rs : List MoneyRequest) → Keeps P (announce_expired rs)
  unfolding announce_expired
  announce_expired-Keeps [] = search keeps_rules
  announce_expired-Keeps (r ∷ rs) =
      bind-Keeps _ _ (enqueue_event-Keeps b _) (λ u. announce_expired-Keeps rs)

  pub expire_requests-Keeps : (batch : ℕ) → Keeps (OnWorld P) (expire_requests batch)
  unfolding expire_requests
  expire_requests-Keeps batch =
      with_transaction-Keeps b _ (search (request_rules, announce_expired-Keeps) depth 12)
