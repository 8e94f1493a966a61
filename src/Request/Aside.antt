-- ===== src/Request/Aside.antt =====
-- A property that does not look at requests survives the writes to them.
use pstu_hackathon.Base.{ℕ, ◌+◌, ◌≤◌, arith, List}
use pstu_hackathon.Base.Table.{find}
use pstu_hackathon.Platform.Schema.{MoneyRequest}
use pstu_hackathon.Platform.Action.{State}
use pstu_hackathon.Request.Repo.{insert_request, mark_accepted, transition, expire_due, request_key}
use pstu_hackathon.Request.Updates.{update_guarded-kept, row_count-kept}
use pstu_hackathon.Request.Steady.{RequestSteady}

-- `P` survives any change of the requests and a greater next identifier.
pub record Apart (P : State → Type 0) : Type 0 where
  pub requests :
      (s : State) (n : ℕ) (rs : List MoneyRequest)
      → s.db.next_id ≤ n
      → P s
      → P (record s { db = record s.db { next_id = n; money_requests = rs } })

module _ {P : State → Type 0} (a : Apart P) where
  same :
      (s : State) (rs : List MoneyRequest)
      → P s
      → P (record s { db = record s.db { money_requests = rs } })
  same s rs h = a.requests s s.db.next_id rs (omega arith) h

  pub apart : RequestSteady P
  unfolding insert_request mark_accepted transition expire_due
  apart = record {
    insertion =
        λ r. record { at = λ env s h. a.requests s (s.db.next_id + 1) _ (later s.db.next_id) h };
    acceptance = λ id t. record {
      at = λ env s h. row_count-kept P _ (
          update_guarded-kept P _ _ id (find request_key id s.db.money_requests) s
            (λ r e p. same s _ h) h);
    };
    ending = λ id to actor reason. record {
      at = λ env s h.
          update_guarded-kept P _ _ id (find request_key id s.db.money_requests) s
            (λ r e p. same s _ h) h;
    };
    expiry = λ limit. record { at = λ env s h. same s _ h };
  }
    where
      later : (n : ℕ) → n ≤ n + 1
      later n = omega arith
