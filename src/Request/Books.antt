-- ===== src/Request/Books.antt =====
-- Money requests keep the books.
use pstu_hackathon.Base.{ℕ, ◌+◌, arith, Option}
use pstu_hackathon.Base.Table.{find}
use pstu_hackathon.Shared.Text.{Text}
use pstu_hackathon.Platform.Action.Keeps.{Keeps}
use pstu_hackathon.Ledger.Books.{IsBalanced, Books-later}
use pstu_hackathon.Request.Repo.{
  NewRequest, Terminal, insert_request, mark_accepted, transition, expire_due, request_key,
}
use pstu_hackathon.Request.Updates.{update_guarded-kept, row_count-kept}
use pstu_hackathon.Request.Steady.{RequestSteady}

mark_accepted-Keeps : (id t : ℕ) → Keeps IsBalanced (mark_accepted id t)
unfolding mark_accepted
mark_accepted-Keeps id t = record {
  at = λ env s h. row_count-kept IsBalanced _ (
      update_guarded-kept IsBalanced _ _ id (find request_key id s.db.money_requests) s (λ r e p. h)
        h);
}

transition-Keeps :
    (id : ℕ) (to : Terminal) (actor : ℕ) (reason : Option Text)
    → Keeps IsBalanced (transition id to actor reason)
unfolding transition
transition-Keeps id to actor reason = record {
  at = λ env s h.
      update_guarded-kept IsBalanced _ _ id (find request_key id s.db.money_requests) s (λ r e p. h)
        h;
}

expire_due-Keeps : (limit : ℕ) → Keeps IsBalanced (expire_due limit)
unfolding expire_due
expire_due-Keeps limit = record { at = λ env s h. h }

insertion : (r : NewRequest) → Keeps IsBalanced (insert_request r)
unfolding insert_request
insertion r = record { at = λ env s h. Books-later (s.db.next_id + 1) (omega arith) h }

pub IsBalanced-RequestSteady : RequestSteady IsBalanced
IsBalanced-RequestSteady = record {
  insertion = insertion;
  acceptance = mark_accepted-Keeps;
  ending = transition-Keeps;
  expiry = expire_due-Keeps;
}
