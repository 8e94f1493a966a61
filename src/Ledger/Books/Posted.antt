-- ===== src/Ledger/Books/Posted.antt =====
-- `postDoubleEntry` keeps the books, and what a successful call has done.
use pstu_hackathon.Base.{◌≡◌, refl, sym, ap, subst, ◌∙◌}
use pstu_hackathon.Platform.Schema.{Account}
use pstu_hackathon.Platform.Action.{Env, State, Result, ok}
use pstu_hackathon.Platform.Action.Keeps.{Keeps}
use pstu_hackathon.Ledger.{PostDoubleEntryCommand, PostedTransfer, post_double_entry}
use pstu_hackathon.Ledger.Outcome.{Verdict, refused, allowed, verdict, posted, moved, carry_out}
use pstu_hackathon.Ledger.Exact.{post_double_entry_exact}
use pstu_hackathon.Ledger.Allowed.{IsAllowed, verdict-IsAllowed}
use pstu_hackathon.Ledger.Books.{IsBalanced}
use pstu_hackathon.Ledger.Books.Moved.{moved-Books}

module _ (c : PostDoubleEntryCommand) (env : Env) (s : State) (h : IsBalanced s) where
  carry_out-IsBalanced :
      (v : Verdict) → verdict c s.db.accounts ≡ v → IsBalanced (carry_out c env s v).1
  carry_out-IsBalanced (refused e) p = h
  carry_out-IsBalanced (allowed from to) p =
      moved-Books c env s from to (verdict-IsAllowed c s.db.accounts p) h

  -- A call that returns was allowed, and has carried out the movement.
  pub record Posting (p : PostedTransfer) (s' : State) : Type 0 where
    pub from : Account
    pub to : Account
    pub allowed : IsAllowed c s.db.accounts from to
    pub result : p ≡ posted c env s from to
    pub state : s' ≡ moved c env s from to

  carry_out_inv :
      (v : Verdict) {p : PostedTransfer} {s' : State}
      → verdict c s.db.accounts ≡ v
      → carry_out c env s v ≡ (ok p, s')
      → Posting p s'
  carry_out_inv (refused e) q k = cc
  carry_out_inv (allowed from to) q k = record {
    from = from;
    to = to;
    allowed = verdict-IsAllowed c s.db.accounts q;
    result = cc;
    state = cc;
  }

  pub post_double_entry_inv :
      {p : PostedTransfer} {s' : State} → post_double_entry c env s ≡ (ok p, s') → Posting p s'
  post_double_entry_inv k =
      carry_out_inv (verdict c s.db.accounts) refl
        (sym (post_double_entry_exact c env s h.covered) ∙ k)

pub post_double_entry-Keeps : (c : PostDoubleEntryCommand) → Keeps IsBalanced (post_double_entry c)
post_double_entry-Keeps c = record {
  at = λ env s h.
      subst IsBalanced
        (ap (λ (o : Result PostedTransfer × State). o.1)
          (sym (post_double_entry_exact c env s h.covered)))
        (carry_out-IsBalanced c env s h (verdict c s.db.accounts) refl);
}

-- `postDoubleEntry` on any command, in a transaction that sees a balanced ledger, leaves a balanced
-- ledger, whether it returns or throws.
pub post_double_entry-IsBalanced :
    (c : PostDoubleEntryCommand) (env : Env) (s : State)
    → IsBalanced s
    → IsBalanced (post_double_entry c env s).1
post_double_entry-IsBalanced c = (post_double_entry-Keeps c).at
