-- ===== src/Reversal/Books.antt =====
-- A reversal keeps the books.
use pstu_hackathon.Base.{ℕ, ◌≢◌, arith, Bool, true, false, none, List, refl, if◌then◌else◌}
use pstu_hackathon.Base.Table.{find, modify, All-imp, All-modify, find-modify}
use pstu_hackathon.Platform.Schema.{Transfer}
use pstu_hackathon.Platform.Action.{State, Result, ok}
use pstu_hackathon.Platform.Action.Keeps.{Keeps}
use pstu_hackathon.Ledger.{transfer_key}
use pstu_hackathon.Ledger.Books.{IsBalanced}
use pstu_hackathon.Reversal.{mark_reversed, still_completed, claim_reversal}

marked : Transfer → State → State
marked t s = record s {
  db = record s.db { transfers = modify transfer_key t.id mark_reversed s.db.transfers };
}

still_there :
    (j k : ℕ) (ts : List Transfer)
    → find transfer_key j ts ≢ none
    → find transfer_key j (modify transfer_key k mark_reversed ts) ≢ none
still_there j k ts h e =
    ground (arith, h, find-modify transfer_key j k mark_reversed ts (λ t. refl))

-- Marking a transfer as reversed changes neither its entries nor its amount.
marked-IsBalanced : (t : Transfer) (s : State) → IsBalanced s → IsBalanced (marked t s)
unfolding marked
marked-IsBalanced t s h = record {
  keyed = h.keyed;
  matched = h.matched;
  zero_sum = h.zero_sum;
  covered = h.covered;
  complete = All-modify transfer_key t.id mark_reversed s.db.transfers (λ u p. p) h.complete;
  owned =
      All-imp s.db.ledger_entries (λ e old. still_there e.transfer_id t.id s.db.transfers old)
        h.owned;
  fresh_accounts = h.fresh_accounts;
  fresh_transfers =
      All-modify transfer_key t.id mark_reversed s.db.transfers (λ u p. p) h.fresh_transfers;
  fresh_entries = h.fresh_entries;
}

claimed-IsBalanced :
    (b : Bool) (o p : Result (Unit {0})) (t : Transfer) (s : State)
    → IsBalanced s
    → IsBalanced (if◌then◌else◌ {A = Result (Unit {0}) × State} b (o, marked t s) (p, s)).1
claimed-IsBalanced true o p t s h = marked-IsBalanced t s h
claimed-IsBalanced false o p t s h = h

pub claim_reversal-Keeps : (t : Transfer) → Keeps IsBalanced (claim_reversal t)
unfolding claim_reversal marked
claim_reversal-Keeps t = record {
  at = λ env s h.
      claimed-IsBalanced (still_completed t.created_at (find transfer_key t.id s.db.transfers))
        (ok tt) _ t s h;
}
