-- ===== src/Ledger/Books.antt =====
-- The well-formed ledger: what reconciliation proves of the database, as an invariant of the state.
pub mod Accounts
pub mod Moved
pub mod Posted
pub mod Writes
use pstu_hackathon.Base.{
  ℕ, ◌<◌, ◌≤◌, arith, ◌≡◌, ◌≢◌, Bool, Option, none, some, List, [], ◌∷◌, ◌==◌, if◌then◌else◌,
}
use pstu_hackathon.Base.Int.{ℤ, pos, ◌+ℤ◌, ◌-ℤ◌, ◌<ℤ◌}
use pstu_hackathon.Base.Table.{find, IsKeyed, All, All-imp, select_where}
use pstu_hackathon.Platform.Schema.{Account, Transfer, Entry, Direction}
use pstu_hackathon.Platform.Database.{Db}
use pstu_hackathon.Platform.Action.{State}
use pstu_hackathon.Ledger.{account_key, transfer_key}
use pstu_hackathon.Ledger.Outcome.{IsCovered}

-- CASE direction WHEN 'CREDIT' THEN amount_minor ELSE -amount_minor END
abbrev pub signed : Direction → ℤ → ℤ
signed Direction.credit x = x
signed Direction.debit x = pos 0 -ℤ x

-- the signed sum of the entries of one account
abbrev pub ledger_sum : ℕ → List Entry → ℤ
ledger_sum k [] = pos 0
ledger_sum k (e ∷ es) =
    (if e.account_id == k then signed e.direction e.amount_minor else pos 0) +ℤ ledger_sum k es

-- SUM(balance_minor)
abbrev pub total : List Account → ℤ
total [] = pos 0
total (a ∷ as') = a.balance_minor +ℤ total as'

abbrev pub entries_of : ℕ → List Entry → List Entry
entries_of id = select_where (λ e. e.transfer_id == id)

abbrev pub leg : Transfer → Direction → ℕ → ℤ → Entry
leg t direction account balance = record {
  transfer_id = t.id;
  account_id = account;
  direction = direction;
  amount_minor = t.amount_minor;
  balance_after = balance;
  created_at = t.created_at;
}

-- The entries of the transfer are a credit of its recipient and a debit of its sender, both of its
-- positive amount and with its time stamp, and these are two accounts.
abbrev pub IsDoubleEntry : List Entry → Transfer → Type 0
IsDoubleEntry es t =
    (pos 0 <ℤ t.amount_minor)
    × (t.from_account_id ≢ t.to_account_id)
    × (after_to : ℤ) × (after_from : ℤ) × (entries_of t.id es
        ≡ leg t Direction.credit t.to_account_id after_to
          ∷ leg t Direction.debit t.from_account_id after_from
          ∷ [])

abbrev pub IsMatched : List Account → List Entry → Type 0
IsMatched accounts es =
    (k : ℕ) (a : Account) → find account_key k accounts ≡ some a → a.balance_minor ≡ ledger_sum k es

abbrev pub IsOwned : List Transfer → List Entry → Type 0
IsOwned ts = All (λ e. find transfer_key e.transfer_id ts ≢ none)

-- Every balance is the sum of its entries, all of them add up to zero, no user is overdrawn, every
-- transfer is a complete double entry, no entry is an orphan, and no identifier is given out twice.
pub record BooksOf (n : ℕ) (accounts : List Account) (transfers : List Transfer)
    (entries : List Entry) : Type 0 where
  pub keyed : IsKeyed account_key accounts
  pub matched : IsMatched accounts entries
  pub zero_sum : total accounts ≡ pos 0
  pub covered : IsCovered accounts
  pub complete : All (IsDoubleEntry entries) transfers
  pub owned : IsOwned transfers entries
  pub fresh_accounts : All (λ a. a.id < n) accounts
  pub fresh_transfers : All (λ t. t.id < n) transfers
  pub fresh_entries : All (λ e. (e.transfer_id < n) × (e.account_id < n)) entries

abbrev pub Books : Db → Type 0
Books db = BooksOf db.next_id db.accounts db.transfers db.ledger_entries

-- the invariant of a transaction's state
abbrev pub IsBalanced : State → Type 0
IsBalanced s = Books s.db

-- Further identifiers may be given out.
pub Books-later :
    (m : ℕ) {n : ℕ} {accounts : List Account} {transfers : List Transfer} {entries : List Entry}
    → n ≤ m
    → BooksOf n accounts transfers entries
    → BooksOf m accounts transfers entries
Books-later m {n} {accounts} {transfers} {entries} le h = record {
  keyed = h.keyed;
  matched = h.matched;
  zero_sum = h.zero_sum;
  covered = h.covered;
  complete = h.complete;
  owned = h.owned;
  fresh_accounts = All-imp accounts (λ a lt. omega arith) h.fresh_accounts;
  fresh_transfers = All-imp transfers (λ t lt. omega arith) h.fresh_transfers;
  fresh_entries = All-imp entries (λ e lt. (omega arith, omega arith)) h.fresh_entries;
}
