-- ===== src/Ledger/Allowed.antt =====
-- What an allowed movement has passed.
use pstu_hackathon.Base.{◌≡◌, ◌≢◌, ap, true, false, ◌&&◌, Option, none, some, List, arith}
use pstu_hackathon.Base.Int.{pos, ◌≤ℤ◌, ◌<ℤ◌, ltb_ℤ}
use pstu_hackathon.Base.Table.{find}
use pstu_hackathon.Platform.Schema.{Account}
use pstu_hackathon.Ledger.{PostDoubleEntryCommand, account_key, is_active, is_closed, is_user}
use pstu_hackathon.Ledger.Outcome.{allowed, judge, judge_found, verdict}

-- The movement of `c` from the row `from` to the row `to` may take place.
pub record IsAllowed (c : PostDoubleEntryCommand) (accounts : List Account) (from to : Account)
    : Type 0 where
  pub positive : pos 0 <ℤ c.amount_minor
  pub apart : c.from_account_id ≢ c.to_account_id
  pub sender : find account_key c.from_account_id accounts ≡ some from
  pub recipient : find account_key c.to_account_id accounts ≡ some to
  pub sender_active : is_active from.status ≡ true
  pub recipient_open : is_closed to.status ≡ false
  pub funded : is_user from.type ≡ true → c.amount_minor ≤ℤ from.balance_minor

judge_inv :
    (c : PostDoubleEntryCommand) (f t : Account) {from to : Account}
    → judge c f t ≡ allowed from to
    → (f ≡ from)
      × (t ≡ to)
      × (is_active from.status ≡ true)
      × (is_closed to.status ≡ false)
      × ((is_user from.type && ltb_ℤ from.balance_minor c.amount_minor) ≡ false)
unfolding judge
judge_inv c f t h = ground arith

judge_found_inv :
    (c : PostDoubleEntryCommand) (f t : Option Account) {from to : Account}
    → judge_found c f t ≡ allowed from to
    → (f ≡ some from)
      × (t ≡ some to)
      × (is_active from.status ≡ true)
      × (is_closed to.status ≡ false)
      × ((is_user from.type && ltb_ℤ from.balance_minor c.amount_minor) ≡ false)
unfolding judge_found
judge_found_inv c none t h = cc
judge_found_inv c (some f) none h = cc
judge_found_inv c (some f) (some t) h =
    let (p, q, a, o, m) = judge_inv c f t h in (ap some p, ap some q, a, o, m)

pub verdict-IsAllowed :
    (c : PostDoubleEntryCommand) (accounts : List Account) {from to : Account}
    → verdict c accounts ≡ allowed from to
    → IsAllowed c accounts from to
unfolding verdict
verdict-IsAllowed c accounts {from} {to} h =
    let (f, t, a, o, m) =
      judge_found_inv c (find account_key c.from_account_id accounts)
        (find account_key c.to_account_id accounts) (ground arith) in
    record {
      positive = ground arith;
      apart = ground arith;
      sender = f;
      recipient = t;
      sender_active = a;
      recipient_open = o;
      funded = ground arith;
    }
