-- ===== src/Ledger/Books/Moved.antt =====
-- A movement keeps the books.
use pstu_hackathon.Base.{
  ℕ, ◌+◌, ◌<◌, ◌≡◌, ◌≢◌, refl, sym, ap, subst, ◌∙◌, true, none, some, List, [], ◌∷◌, arith, ◌==◌,
  if◌then◌else◌, ==_self, ==_eq, inl, inr, Bool-cases,
}
use pstu_hackathon.Base.Int.{ℤ, pos, ◌+ℤ◌, ◌-ℤ◌, ◌≤ℤ◌, ◌<ℤ◌, int_laws}
use pstu_hackathon.Base.Table.{find, All, All-imp, All-modify, modify-IsKeyed}
use pstu_hackathon.Platform.Schema.{Account, Transfer, Entry}
use pstu_hackathon.Platform.Action.{Env, State}
use pstu_hackathon.Ledger.{
  PostDoubleEntryCommand, account_key, transfer_key, is_user, transfer_row, next_reference,
}
use pstu_hackathon.Ledger.Outcome.{moved, moved_accounts, moved_entries, IsCovered}
use pstu_hackathon.Ledger.Allowed.{IsAllowed}
use pstu_hackathon.Ledger.Books.{Books, ledger_sum, entries_of, IsDoubleEntry, IsMatched, IsOwned}
use pstu_hackathon.Ledger.Books.Accounts.{total_moved, find_moved}

-- No entry belongs to an identifier that is not yet given out.
entries_of_fresh :
    (n : ℕ) (es : List Entry)
    → All (λ e. (e.transfer_id < n) × (e.account_id < n)) es
    → entries_of n es ≡ []
entries_of_fresh n [] h = refl
entries_of_fresh n (e ∷ es) ((lt, _), h) = ground (arith, entries_of_fresh n es h)

below_next :
    {A : Type 0} (f : A → ℕ) (n : ℕ) (xs : List A)
    → All (λ x. f x < n) xs
    → All (λ x. f x < n + 1) xs
below_next f n xs = All-imp xs (λ x h. omega arith)

matched_step :
    (m n k : ℕ) (x b l : ℤ)
    → m ≢ n
    → b ≡ l
    → (if k == n then b +ℤ x else if k == m then b -ℤ x else b)
      ≡ (if n == k then x else pos 0) +ℤ ((if m == k then pos 0 -ℤ x else pos 0) +ℤ l)
matched_step m n k x b l apart e = grind int_laws

credit_nonneg : (b x : ℤ) → pos 0 ≤ℤ b → pos 0 <ℤ x → pos 0 ≤ℤ b +ℤ x
credit_nonneg b x h p = omega int_laws

debit_nonneg : (b x : ℤ) → x ≤ℤ b → pos 0 ≤ℤ b -ℤ x
debit_nonneg b x h = omega int_laws

covered_step :
    (m n k : ℕ) (x b : ℤ)
    → pos 0 <ℤ x
    → pos 0 ≤ℤ b
    → (k ≡ m → x ≤ℤ b)
    → pos 0 ≤ℤ (if k == n then b +ℤ x else if k == m then b -ℤ x else b)
covered_step m n k x b p h f = elim (Bool-cases (k == n)) [
  | inl credit ↦ rw credit (credit_nonneg b x h p)
  | inr other ↦ elim (Bool-cases (k == m)) [
    | inl debit ↦ rw (other, debit) (debit_nonneg b x (f (==_eq k m debit)))
    | inr untouched ↦ rw (other, untouched) h
  ]
]

id_below :
    (n k : ℕ) (a : Account) (xs : List Account)
    → All (λ x. x.id < n) xs
    → find account_key k xs ≡ some a
    → k < n + 1
id_below n k a [] h e = cc
id_below n k a (x ∷ xs) (lt, h) e = ground (arith, id_below n k a xs h)

-- A new transfer hides none.
still :
    (ts : List Transfer) (t : Transfer) (k : ℕ)
    → find transfer_key k ts ≢ none
    → find transfer_key k (t ∷ ts) ≢ none
still ts t k h e = ground (arith, h)

All-both :
    {A : Type 0} {P Q R : A → Type 0} (xs : List A)
    → ((x : A) → P x → Q x → R x)
    → All P xs
    → All Q xs
    → All R xs
All-both [] f h k = tt
All-both (x ∷ xs) f (p, h) (q, k) = (f x p q, All-both xs f h k)

-- An entry of another transfer does not count.
skip_two :
    (n id : ℕ) (d e : Entry) (es : List Entry)
    → id < n
    → d.transfer_id ≡ n
    → e.transfer_id ≡ n
    → entries_of id (d ∷ e ∷ es) ≡ entries_of id es
skip_two n id d e es lt p q = ground arith

module _ (c : PostDoubleEntryCommand) (env : Env) (s : State) (from to : Account)
    (ok_ : IsAllowed c s.db.accounts from to) (h : Books s.db) where
  -- the entries of an account before and after
  IsMatched-moved : IsMatched (moved_accounts c s.db.accounts) (moved_entries c env s from to)
  IsMatched-moved k a e =
      let (b, found, _, _, balance) =
        find_moved s.db.accounts ok_.apart c.amount_minor ok_.sender ok_.recipient k a e in
      let before : b.balance_minor ≡ ledger_sum k s.db.ledger_entries = h.matched k b found in
      balance
      ∙ matched_step c.from_account_id c.to_account_id k c.amount_minor b.balance_minor
          (ledger_sum k s.db.ledger_entries) ok_.apart before

  funds :
      (b : Account)
      → is_user b.type ≡ true
      → find account_key c.from_account_id s.db.accounts ≡ some b
      → c.amount_minor ≤ℤ b.balance_minor
  funds b user found =
      subst (λ z. c.amount_minor ≤ℤ z.balance_minor) same
        (ok_.funded (ap (λ z. is_user z.type) same ∙ user))
    where
      same : from ≡ b
      same = cc ok_.sender

  IsCovered-moved : IsCovered (moved_accounts c s.db.accounts)
  IsCovered-moved k a e user =
      let (b, found, _, type, balance) =
        find_moved s.db.accounts ok_.apart c.amount_minor ok_.sender ok_.recipient k a e in
      subst (λ z. pos 0 ≤ℤ z) (sym balance)
        (covered_step c.from_account_id c.to_account_id k c.amount_minor b.balance_minor
          ok_.positive (h.covered k b found (ap is_user (sym type) ∙ user))
          (λ here.
            funds b (ap is_user (sym type) ∙ user)
              (subst (λ z. find account_key z s.db.accounts ≡ some b) here found)))

  complete_moved :
      All (IsDoubleEntry (moved_entries c env s from to)) (moved c env s from to).db.transfers
  complete_moved = (
    (
      ok_.positive,
      ok_.apart,
      to.balance_minor +ℤ c.amount_minor,
      from.balance_minor -ℤ c.amount_minor,
      rw (==_self s.db.next_id, entries_of_fresh s.db.next_id s.db.ledger_entries h.fresh_entries)
          refl,
    ),
    All-both s.db.transfers
        (λ t lt (p, a, b, d, e).
          (p, a, b, d, skip_two s.db.next_id t.id _ _ s.db.ledger_entries lt refl refl ∙ e))
        h.fresh_transfers h.complete,
  )

  IsOwned-moved : IsOwned (moved c env s from to).db.transfers (moved_entries c env s from to)
  IsOwned-moved = (
    found_new,
    (
      found_new,
      All-imp s.db.ledger_entries
          (λ e old.
            still s.db.transfers (transfer_row s.db.next_id c (next_reference env s) env.now)
              e.transfer_id old)
          h.owned,
    ),
  )
    where
      found_new : find transfer_key s.db.next_id (moved c env s from to).db.transfers ≢ none
      found_new e = cc (rw (==_self s.db.next_id) at e)

  known : (k : ℕ) (a : Account) → find account_key k s.db.accounts ≡ some a → k < s.db.next_id + 1
  known k a e = id_below s.db.next_id k a s.db.accounts h.fresh_accounts e

  pub moved-Books : Books (moved c env s from to).db
  moved-Books = record {
    keyed =
        modify-IsKeyed account_key c.to_account_id _ _ (λ a. refl)
          (modify-IsKeyed account_key c.from_account_id _ s.db.accounts (λ a. refl) h.keyed);
    matched = IsMatched-moved;
    zero_sum =
        total_moved s.db.accounts ok_.apart c.amount_minor ok_.sender ok_.recipient h.keyed
        ∙ h.zero_sum;
    covered = IsCovered-moved;
    complete = complete_moved;
    owned = IsOwned-moved;
    fresh_accounts =
        All-modify account_key c.to_account_id _ _ (λ a lt. lt)
          (All-modify account_key c.from_account_id _ s.db.accounts (λ a lt. lt)
            (below_next (λ a. a.id) s.db.next_id s.db.accounts h.fresh_accounts));
    fresh_transfers =
        (omega arith, below_next (λ t. t.id) s.db.next_id s.db.transfers h.fresh_transfers);
    fresh_entries = (
      (omega arith, known c.to_account_id to ok_.recipient),
      (
        (omega arith, known c.from_account_id from ok_.sender),
        All-imp s.db.ledger_entries (λ e lt. (omega arith, omega arith)) h.fresh_entries,
      ),
    );
  }
