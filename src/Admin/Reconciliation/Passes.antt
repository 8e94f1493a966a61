-- ===== src/Admin/Reconciliation/Passes.antt =====
-- Every check of the ledger passes where the books balance.
use pstu_hackathon.Base.{
  ℕ, ◌≡◌, ◌≢◌, refl, sym, ap, subst, ◌∙◌, arith, Bool, true, false, ◌&&◌, none, some, List, [], ◌∷◌,
  ◌==◌, ==_self, ==_eq, ==_ne, inl, inr, Bool-cases,
}
use pstu_hackathon.Base.Int.{ℤ, ◌+ℤ◌, ◌-ℤ◌, eqb_ℤ}
use pstu_hackathon.Base.Table.{find, select_where, All, All-imp, IsKeyed, absent}
use pstu_hackathon.Base.Sums.{sum_of, where_so, sum_of-select_where}
use pstu_hackathon.Platform.Schema.{Account, AccountType, Transfer, Entry, Direction}
use pstu_hackathon.Platform.Database.{Db}
use pstu_hackathon.Ledger.{account_key, transfer_key}
use pstu_hackathon.Ledger.Books.{signed, ledger_sum, total, leg, IsDoubleEntry, Books}
use pstu_hackathon.Admin.Reconciliation.{
  signed_amount, balance_of, conservation_of_money, ledger_minor, has_drifted,
  balances_match_ledger, is_unbalanced, is_broken, double_entry_complete, has_transfer, is_orphan,
  distinct, orphans, is_negative, stranded, no_orphans, checked, all_checks, CheckResult,
}

select_none :
    {A : Type 0} (p : A → Bool) (xs : List A) → All (λ x. p x ≡ false) xs → select_where p xs ≡ []
select_none p [] h = refl
select_none p (x ∷ xs) (e, h) = rw (e, select_none p xs h) refl

All-both :
    {A : Type 0} {P Q R : A → Type 0} (xs : List A)
    → ((x : A) → P x → Q x → R x)
    → All P xs
    → All Q xs
    → All R xs
All-both [] f h k = tt
All-both (x ∷ xs) f (p, h) (q, k) = (f x p q, All-both xs f h k)

-- In a keyed table every row is found by its key.
found_rows :
    {A : Type 0} (key : A → ℕ) (xs : List A)
    → IsKeyed key xs
    → All (λ x. find key (key x) xs ≡ some x) xs
found_rows key [] h = tt
found_rows key (x ∷ xs) (new, h) = (
  rw (==_self (key x)) refl,
  All-both xs (λ y ne f. rw (==_ne (key x) (key y) (λ e. ne (sym e))) f) (absent key (key x) xs new)
      (found_rows key xs h),
)

eqb_self : (x : ℤ) → eqb_ℤ x x ≡ true
eqb_self x = ground arith

eqb_of_eq : (x y : ℤ) → x ≡ y → eqb_ℤ x y ≡ true
eqb_of_eq x y h = rw h (eqb_self y)

total-sum_of : (xs : List Account) → total xs ≡ sum_of balance_of xs
total-sum_of [] = refl
total-sum_of (a ∷ xs) = ap (λ z. a.balance_minor +ℤ z) (total-sum_of xs)

signed-signed_amount : (e : Entry) → signed e.direction e.amount_minor ≡ signed_amount e
signed-signed_amount e = by e.direction refl
  where
    by : (d : Direction) → e.direction ≡ d → signed e.direction e.amount_minor ≡ signed_amount e
    by Direction.credit h = rw h refl
    by Direction.debit h = rw h refl

ledger_sum-ledger_minor :
    (k : ℕ) (es : List Entry)
    → ledger_sum k es ≡ sum_of (where_so signed_amount (λ e. e.account_id == k)) es
ledger_sum-ledger_minor k [] = refl
ledger_sum-ledger_minor k (e ∷ es) = rw (signed-signed_amount e, ledger_sum-ledger_minor k es) refl

module _ (db : Db) (h : Books db) where
  conservation_holds : conservation_of_money db ≡ []
  unfolding conservation_of_money
  conservation_holds = rw (eqb_of_eq _ _ (sym (total-sum_of db.accounts) ∙ h.zero_sum)) refl

  matched_row :
      (a : Account)
      → find account_key a.id db.accounts ≡ some a
      → has_drifted db.ledger_entries a ≡ false
  unfolding ledger_minor
  matched_row a f = rw (eqb_of_eq _ _ same) refl
    where
      same : a.balance_minor ≡ ledger_minor db.ledger_entries a
      same =
          h.matched a.id a f
          ∙ ledger_sum-ledger_minor a.id db.ledger_entries
          ∙ sym (sum_of-select_where signed_amount (λ e. e.account_id == a.id) db.ledger_entries)

  balances_hold : balances_match_ledger db ≡ []
  unfolding balances_match_ledger
  balances_hold =
      rw
        (select_none (has_drifted db.ledger_entries) db.accounts
          (All-imp db.accounts matched_row (found_rows account_key db.accounts h.keyed)))
        refl

  covered_row : (a : Account) → find account_key a.id db.accounts ≡ some a → is_negative a ≡ false
  covered_row a f = of_type a.type refl
    where
      of_type : (t : AccountType) → a.type ≡ t → is_negative a ≡ false
      of_type AccountType.user e = ground (arith, e, h.covered a.id a f (rw e refl))
      of_type AccountType.system e = rw e refl

  none_negative : select_where is_negative db.accounts ≡ []
  none_negative =
      select_none is_negative db.accounts
        (All-imp db.accounts covered_row (found_rows account_key db.accounts h.keyed))

select_both :
    {A : Type 0} (p q : A → Bool) (xs : List A)
    → select_where (λ x. p x && q x) xs ≡ select_where q (select_where p xs)
select_both p q [] = refl
select_both p q (x ∷ xs) = elim (Bool-cases (p x)) [
  | inl hit ↦ rw (hit, select_both p q xs) refl
  | inr miss ↦ rw (miss, select_both p q xs) refl
]

legs_balance :
    (t : Transfer) (x y : ℤ)
    → is_unbalanced t
        (leg t Direction.credit t.to_account_id x ∷ leg t Direction.debit t.from_account_id y ∷ [])
      ≡ false
unfolding ◌+ℤ◌ ◌-ℤ◌
legs_balance t x y = ground arith

module _ (db : Db) where
  complete_row :
      (t : Transfer) → IsDoubleEntry db.ledger_entries t → is_broken db.ledger_entries t ≡ false
  complete_row t (amount, apart, x, y, rows) =
      rw
        (
          select_both (λ (e : Entry). e.transfer_id == t.id) (λ e. e.created_at == t.created_at)
              db.ledger_entries,
          rows,
          ==_self t.created_at,
        )
        (legs_balance t x y)

  double_entries_hold : Books db → double_entry_complete db ≡ []
  unfolding double_entry_complete
  double_entries_hold h =
      rw
        (select_none (is_broken db.ledger_entries) db.transfers
          (All-imp db.transfers complete_row h.complete))
        refl

All-swap :
    {A B : Type 0} (R : A → B → Type 0) (xs : List A) (ys : List B)
    → All (λ x. All (R x) ys) xs
    → All (λ y. All (λ x. R x y) xs) ys
All-swap R xs [] h = tt
All-swap R xs (y ∷ ys) h = (All-imp xs (λ x k. k.0) h, All-swap R xs ys (All-imp xs (λ x k. k.1) h))

of_rows :
    {A : Type 0} (P : A → Type 0) (p : A → Bool) (xs : List A)
    → All P (select_where p xs)
    → All (λ x. p x ≡ true → P x) xs
of_rows P p [] h = tt
of_rows P p (x ∷ xs) h = elim (Bool-cases (p x)) [
  | inl hit ↦ let k = rw hit at h in ((λ e. k.0), of_rows P p xs k.1)
  | inr miss ↦ ((λ e. ground (arith, e, miss)), of_rows P p xs (rw miss at h))
]

-- the entry has the time stamp of the transfer, if it is one of its entries
abbrev IsStamped : Transfer → Entry → Type 0
IsStamped t e = (e.transfer_id == t.id) ≡ true → e.created_at ≡ t.created_at

stamped : (es : List Entry) (t : Transfer) → IsDoubleEntry es t → All (IsStamped t) es
stamped es t (amount, apart, x, y, rows) =
    of_rows (λ (e : Entry). e.created_at ≡ t.created_at) (λ (e : Entry). e.transfer_id == t.id) es
      (subst (All (λ (e : Entry). e.created_at ≡ t.created_at)) (sym rows) (refl, (refl, tt)))

has_its_transfer :
    (e : Entry) (ts : List Transfer)
    → find transfer_key e.transfer_id ts ≢ none
    → All (λ t. IsStamped t e) ts
    → has_transfer e ts ≡ true
has_its_transfer e [] owned h = absurd (owned refl)
has_its_transfer e (t ∷ ts) owned (k, h) = elim (Bool-cases (t.id == e.transfer_id)) [
  | inl same ↦
      let this : (e.transfer_id == t.id) ≡ true =
        rw (==_eq t.id e.transfer_id same) (==_self e.transfer_id) in
      ground (arith, this, k this)
  | inr other ↦ ground (arith, has_its_transfer e ts (rw other at owned) h)
]

-- the result of a check that finds nothing
abbrev pub passed : CheckResult
passed = record { status = true; violations = [] }

module _ (db : Db) (h : Books db) where
  no_orphan : select_where (is_orphan db.transfers) db.ledger_entries ≡ []
  no_orphan = select_none (is_orphan db.transfers) db.ledger_entries (
      All-both db.ledger_entries (λ e owned k. rw (has_its_transfer e db.transfers owned k) refl)
        h.owned
        (All-swap IsStamped db.transfers db.ledger_entries
          (All-imp db.transfers (stamped db.ledger_entries) h.complete)))

  only_stranded : (now : ℕ) → no_orphans now db ≡ stranded now db
  unfolding no_orphans orphans distinct
  only_stranded now = rw (no_orphan, none_negative db h) refl

  -- What reconciliation finds in a database whose books balance.
  pub all_checks_pass :
      (now : ℕ) → all_checks now db ≡ passed ∷ passed ∷ passed ∷ checked (stranded now db) ∷ []
  unfolding all_checks checked
  all_checks_pass now =
      rw (conservation_holds db h, balances_hold db h, double_entries_hold db h, only_stranded now)
        refl
