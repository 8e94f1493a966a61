-- ===== src/Admin/Reconciliation.antt =====
-- backend/src/modules/admin/reconciliation.service.ts: four claims about the database, each of them a query
-- for counterexamples. Names, wordings and durations of the checks are left out.
pub mod Passes
use pstu_hackathon.Base.{
  ℕ, ◌+◌, Bool, true, false, ◌&&◌, ◌||◌, not, Option, none, some, List, [], ◌∷◌, ◌++◌, map, length,
  ltb, ◌==◌, if◌then◌else◌,
}
use pstu_hackathon.Base.Int.{ℤ, pos, ◌-ℤ◌, eqb_ℤ, ltb_ℤ}
use pstu_hackathon.Base.Table.{select_where, take}
use pstu_hackathon.Base.Sums.{sum_of}
use pstu_hackathon.Shared.Text.{Text}
use pstu_hackathon.Shared.Money.{format_taka}
use pstu_hackathon.Platform.Schema.{Account, AccountType, Transfer, Entry, Direction, KeyState}
use pstu_hackathon.Platform.Database.{Db, IdempotencyKey}
use pstu_hackathon.Platform.Action.{Result, Env, State, Tx, pure, ask, gets, ◌>>=◌}
use pstu_hackathon.Platform.Transaction.{Handler, with_read_transaction}

-- the counterexamples that the queries return
pub data Violation : Type 0 where
  net_minor : ℤ → Violation
  drifted_account : ℕ → ℤ → ℤ → Violation
  broken_transfer : ℕ → Violation
  orphan_ledger_entry : ℕ → Violation
  negative_user_balance : ℕ → ℤ → Violation
  stranded_idempotency_key : ℕ → Violation

-- PASS is `true`.
pub record CheckResult : Type 0 where
  pub status : Bool
  pub violations : List Violation

pub record Totals : Type 0 where
  pub user_money : Text
  pub treasury : Text
  pub net : Text
  pub accounts : ℕ
  pub transfers : ℕ
  pub ledger_entries : ℕ

pub record ReconciliationReport : Type 0 where
  pub status : Bool
  pub checked_at : ℕ
  pub totals : Totals
  pub checks : List CheckResult

abbrev pub is_empty : List Violation → Bool
is_empty [] = true
is_empty (v ∷ vs) = false

-- `timed`: a check passes if there are no violations, of which at most 20 are shown.
unfoldable pub checked : List Violation → CheckResult
checked violations = record { status = is_empty violations; violations = take 20 violations }

-- CASE direction WHEN 'CREDIT' THEN amount_minor ELSE -amount_minor END
abbrev pub signed_amount : Entry → ℤ
signed_amount e = elim e.direction [
  | Direction.credit ↦ e.amount_minor
  | Direction.debit ↦ pos 0 -ℤ e.amount_minor
]

abbrev pub balance_of : Account → ℤ
balance_of a = a.balance_minor

unfoldable pub conservation_of_money : Db → List Violation
conservation_of_money db =
    let net = sum_of balance_of db.accounts in if eqb_ℤ net (pos 0) then [] else net_minor net ∷ []

-- the sum of the account's entries
unfoldable pub ledger_minor : List Entry → Account → ℤ
ledger_minor es a = sum_of signed_amount (select_where (λ e. e.account_id == a.id) es)

abbrev pub has_drifted : List Entry → Account → Bool
has_drifted es a = not (eqb_ℤ a.balance_minor (ledger_minor es a))

abbrev pub drift : List Entry → Account → Violation
drift es a = drifted_account a.id a.balance_minor (ledger_minor es a)

unfoldable pub balances_match_ledger : Db → List Violation
unfolding ledger_minor
balances_match_ledger db =
    map (drift db.ledger_entries) (select_where (has_drifted db.ledger_entries) db.accounts)

-- ON e.transfer_id = t.id AND e.created_at = t.created_at
abbrev pub is_entry_of : Transfer → Entry → Bool
is_entry_of t e = (e.transfer_id == t.id) && (e.created_at == t.created_at)

-- MIN(e.amount_minor), and MAX, of the rows and a first one
abbrev pub minimum : ℤ → List Entry → ℤ
minimum x [] = x
minimum x (e ∷ es) =
    let rest = minimum x es in if ltb_ℤ e.amount_minor rest then e.amount_minor else rest

abbrev pub maximum : ℤ → List Entry → ℤ
maximum x [] = x
maximum x (e ∷ es) =
    let rest = maximum x es in if ltb_ℤ rest e.amount_minor then e.amount_minor else rest

-- The HAVING clause. Without rows the count alone decides.
abbrev pub is_unbalanced : Transfer → List Entry → Bool
is_unbalanced t [] = true
is_unbalanced t (e ∷ es) =
    not (length (e ∷ es) == 2)
    || (not (eqb_ℤ (sum_of signed_amount (e ∷ es)) (pos 0))
        || (not (eqb_ℤ (minimum e.amount_minor es) t.amount_minor)
            || not (eqb_ℤ (maximum e.amount_minor es) t.amount_minor)))

abbrev pub is_broken : List Entry → Transfer → Bool
is_broken es t = is_unbalanced t (select_where (is_entry_of t) es)

unfoldable pub double_entry_complete : Db → List Violation
double_entry_complete db =
    map (λ (t : Transfer). broken_transfer t.id)
      (select_where (is_broken db.ledger_entries) db.transfers)

-- whether an entry has its transfer
abbrev pub has_transfer : Entry → List Transfer → Bool
has_transfer e [] = false
has_transfer e (t ∷ ts) = is_entry_of t e || has_transfer e ts

abbrev pub is_orphan : List Transfer → Entry → Bool
is_orphan ts e = not (has_transfer e ts)

abbrev pub is_member : ℕ → List ℕ → Bool
is_member k [] = false
is_member k (x ∷ xs) = (x == k) || is_member k xs

-- SELECT DISTINCT
unfoldable pub distinct : List ℕ → List ℕ
distinct [] = []
distinct (x ∷ xs) = let rest = distinct xs in if is_member x rest then rest else x ∷ rest

unfoldable pub orphans : Db → List ℕ
unfolding distinct
orphans db =
    distinct
      (map (λ (e : Entry). e.transfer_id) (select_where (is_orphan db.transfers) db.ledger_entries))

abbrev pub is_of_user : AccountType → Bool
is_of_user AccountType.user = true
is_of_user AccountType.system = false

abbrev pub is_negative : Account → Bool
is_negative a = is_of_user a.type && ltb_ℤ a.balance_minor (pos 0)

abbrev pub is_in_progress : KeyState → Bool
is_in_progress KeyState.in_progress = true
is_in_progress KeyState.completed = false

-- in progress for more than a minute
abbrev pub is_stranded : ℕ → IdempotencyKey → Bool
is_stranded now k = is_in_progress k.state && ltb (k.created_at + 60_000_000) now

unfoldable pub stranded : ℕ → Db → List Violation
stranded now db =
    map (λ (k : IdempotencyKey). stranded_idempotency_key k.id)
      (select_where (is_stranded now) db.idempotency_keys)

unfoldable pub no_orphans : ℕ → Db → List Violation
unfolding orphans stranded
no_orphans now db =
    map orphan_ledger_entry (orphans db)
    ++ (map (λ (a : Account). negative_user_balance a.id a.balance_minor)
          (select_where is_negative db.accounts)
        ++ stranded now db)

unfoldable pub read_totals : Db → Totals
read_totals db = record {
  user_money = format_taka (sum_of balance_of (select_where (λ a. is_of_user a.type) db.accounts));
  treasury =
      format_taka (sum_of balance_of (select_where (λ a. not (is_of_user a.type)) db.accounts));
  net = format_taka (sum_of balance_of db.accounts);
  accounts = length db.accounts;
  transfers = length db.transfers;
  ledger_entries = length db.ledger_entries;
}

unfoldable pub all_checks : ℕ → Db → List CheckResult
unfolding checked conservation_of_money balances_match_ledger double_entry_complete no_orphans
all_checks now db =
    checked (conservation_of_money db)
    ∷ checked (balances_match_ledger db)
    ∷ checked (double_entry_complete db)
    ∷ checked (no_orphans now db)
    ∷ []

abbrev pub every_pass : List CheckResult → Bool
every_pass [] = true
every_pass (c ∷ cs) = c.status && every_pass cs

unfoldable pub report_tx : Tx ReconciliationReport
unfolding all_checks read_totals
report_tx env s = (
  Result.ok (record {
    status = every_pass (all_checks env.now s.db);
    checked_at = env.date_now;
    totals = read_totals s.db;
    checks = all_checks env.now s.db;
  }),
  s,
)

unfoldable pub reconcile : Handler ReconciliationReport
unfolding report_tx
reconcile = with_read_transaction report_tx
