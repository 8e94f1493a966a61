-- ===== src/Ledger/Outcome.antt =====
-- What `postDoubleEntry` does on every branch, against a description that only looks the accounts up.
use pstu_hackathon.Base.{
  ℕ, ◌+◌, ◌≡◌, ◌≢◌, refl, ◌∙◌, ap, sym, true, false, ◌&&◌, not, Option, none, some, List, ◌∷◌,
  arith, ◌==◌, ==_ne, if◌then◌else◌,
}
use pstu_hackathon.Base.Int.{ℤ, pos, ◌+ℤ◌, ◌-ℤ◌, ◌≤ℤ◌, ◌<ℤ◌, ltb_ℤ, leb_ℤ, int_laws}
use pstu_hackathon.Base.Table.{find, modify, find-modify}
use pstu_hackathon.Platform.Errors.{ErrorCode, AppError, failure, insufficient_funds_error}
use pstu_hackathon.Platform.Schema.{Account, Entry}
use pstu_hackathon.Platform.Action.{Env, Hook, State, Result, ok, err, Tx, ◌>>=◌, throw_if}
use pstu_hackathon.Platform.Action.Steps.{bind_ok}
use pstu_hackathon.Ledger.{
  PostDoubleEntryCommand, PostedTransfer, account_key, is_active, is_closed, is_user, with_balance,
  violates_check, update_balance, rethrow, translate, lock_account_pair, transfer_row, debit_entry,
  credit_entry, next_reference,
}

pub data Verdict : Type 0 where
  refused : AppError → Verdict
  allowed : Account → Account → Verdict

-- Whether the sender and the recipient that were found may exchange the amount.
unfoldable pub judge : PostDoubleEntryCommand → Account → Account → Verdict
judge c from to =
    if not (is_active from.status)
    then refused (failure ErrorCode.account_frozen)
    else if is_closed to.status
    then refused (failure ErrorCode.account_frozen)
    else if is_user from.type && ltb_ℤ from.balance_minor c.amount_minor
    then refused (insufficient_funds_error from.balance_minor c.amount_minor)
    else allowed from to

-- The same for what a look-up of each has found.
unfoldable pub judge_found : PostDoubleEntryCommand → Option Account → Option Account → Verdict
unfolding judge
judge_found c none to = refused (failure ErrorCode.not_found)
judge_found c (some from) none = refused (failure ErrorCode.not_found)
judge_found c (some from) (some to) = judge c from to

-- The rule, without locks, orders of locks or writes.
unfoldable pub verdict : PostDoubleEntryCommand → List Account → Verdict
unfolding judge_found
verdict c accounts =
    if leb_ℤ c.amount_minor (pos 0)
    then refused (failure ErrorCode.validation_error)
    else if c.from_account_id == c.to_account_id
    then refused (failure ErrorCode.self_transfer)
    else judge_found c (find account_key c.from_account_id accounts)
        (find account_key c.to_account_id accounts)

abbrev pub posted : PostDoubleEntryCommand → Env → State → Account → Account → PostedTransfer
posted c env s from to = record {
  id = s.db.next_id;
  reference = next_reference env s;
  from_account_id = from.id;
  to_account_id = to.id;
  amount_minor = c.amount_minor;
  type = c.type;
  note = c.note;
  created_at = env.now;
  sender_balance_after = from.balance_minor -ℤ c.amount_minor;
  receiver_balance_after = to.balance_minor +ℤ c.amount_minor;
}

-- The accounts after the movement: one debited, one credited, and both versions one higher.
abbrev pub moved_accounts : PostDoubleEntryCommand → List Account → List Account
moved_accounts c accounts =
    modify account_key c.to_account_id (with_balance (λ b. b +ℤ c.amount_minor))
      (modify account_key c.from_account_id (with_balance (λ b. b -ℤ c.amount_minor)) accounts)

abbrev pub moved_entries : PostDoubleEntryCommand → Env → State → Account → Account → List Entry
moved_entries c env s from to =
    credit_entry s.db.next_id c (to.balance_minor +ℤ c.amount_minor) env.now
    ∷ debit_entry s.db.next_id c (from.balance_minor -ℤ c.amount_minor) env.now
    ∷ s.db.ledger_entries

abbrev pub moved : PostDoubleEntryCommand → Env → State → Account → Account → State
moved c env s from to = record {
  db = record s.db {
    next_id = s.db.next_id + 1;
    accounts = moved_accounts c s.db.accounts;
    transfers = transfer_row s.db.next_id c (next_reference env s) env.now ∷ s.db.transfers;
    ledger_entries = moved_entries c env s from to;
  };
  hooks =
      Hook.publish_balance to.id (to.balance_minor +ℤ c.amount_minor) (to.version + 1)
      ∷ Hook.publish_balance from.id (from.balance_minor -ℤ c.amount_minor) (from.version + 1)
      ∷ s.hooks;
}

abbrev pub carry_out :
    PostDoubleEntryCommand → Env → State → Verdict → Result PostedTransfer × State
carry_out c env s (refused e) = (err e, s)
carry_out c env s (allowed from to) = (ok (posted c env s from to), moved c env s from to)

-- No user's balance is negative.
abbrev pub IsCovered : List Account → Type 0
IsCovered accounts =
    (k : ℕ) (a : Account)
    → find account_key k accounts ≡ some a
    → is_user a.type ≡ true
    → pos 0 ≤ℤ a.balance_minor

-- The two rows in the order of the command, whichever is locked first.
abbrev pub found_pair : ℕ → ℕ → List Account → Result (Account × Account)
found_pair from_id to_id accounts =
    if from_id == to_id
    then err (failure ErrorCode.self_transfer)
    else elim (find account_key from_id accounts) [
      | none ↦ err (failure ErrorCode.not_found)
      | some from ↦ elim (find account_key to_id accounts) [
        | none ↦ err (failure ErrorCode.not_found)
        | some to ↦ ok (from, to)
      ]
    ]

pub lock_account_pair_lem :
    (from_id to_id : ℕ) (env : Env) (s : State)
    → lock_account_pair from_id to_id env s ≡ (found_pair from_id to_id s.db.accounts, s)
unfolding lock_account_pair ◌>>=◌ throw_if
lock_account_pair_lem from_id to_id env s = ground arith

module _ (c : PostDoubleEntryCommand) (env : Env) (s : State) (from to : Account) where
  update_balance_ok :
      (id : ℕ) (f : ℤ → ℤ) (t : State)
      → violates_check f (find account_key id t.db.accounts) ≡ false
      → update_balance id f env t ≡ (
        ok tt,
        record t {
          db = record t.db { accounts = modify account_key id (with_balance f) t.db.accounts };
        },
      )
  unfolding update_balance
  update_balance_ok id f t h = rw h

  rethrow_ok :
      (g : AppError → AppError) (m : Tx (Unit {0})) {t : State}
      → m env s ≡ (ok tt, t)
      → rethrow g m env s ≡ (ok tt, t)
  unfolding rethrow
  rethrow_ok g m {t} h =
      ap {B = Result (Unit {0}) × State}
        (λ (o : Result (Unit {0}) × State). elim o.0 [
          | ok a ↦ (ok a, o.1)
          | err e ↦ (err (g e), o.1)
        ])
        h

  debited : State
  debited = record s {
    db = record s.db {
      accounts =
          modify account_key c.from_account_id (with_balance (λ b. b -ℤ c.amount_minor))
            s.db.accounts;
    };
  }

  -- Under a positive amount that the sender may spend, neither update violates the CHECK.
  pub updates_lem :
      (e : AppError)
      → pos 0 <ℤ c.amount_minor
      → c.from_account_id ≢ c.to_account_id
      → find account_key c.from_account_id s.db.accounts ≡ some from
      → find account_key c.to_account_id s.db.accounts ≡ some to
      → (is_user from.type && ltb_ℤ from.balance_minor c.amount_minor) ≡ false
      → (is_user to.type ≡ true → pos 0 ≤ℤ to.balance_minor)
      → rethrow
          (translate e)
          (update_balance c.from_account_id (λ b. b -ℤ c.amount_minor) >>= λ _.
            update_balance c.to_account_id (λ b. b +ℤ c.amount_minor))
          env
          s
        ≡ (ok tt, record s { db = record s.db { accounts = moved_accounts c s.db.accounts } })
  unfolding debited
  updates_lem e positive apart ef et funds covered = rethrow_ok (translate e) _ (
      bind_ok _ _ (update_balance_ok c.from_account_id _ s (rw ef debit_fits))
      ∙ update_balance_ok c.to_account_id _ debited (rw found_to credit_fits))
    where
      debit_fits :
          (is_user from.type && ltb_ℤ (from.balance_minor -ℤ c.amount_minor) (pos 0)) ≡ false
      debit_fits = grind int_laws

      credit_fits : (is_user to.type && ltb_ℤ (to.balance_minor +ℤ c.amount_minor) (pos 0)) ≡ false
      credit_fits = grind int_laws

      found_to : find account_key c.to_account_id debited.db.accounts ≡ some to
      found_to =
          find-modify account_key c.to_account_id c.from_account_id
            (with_balance (λ b. b -ℤ c.amount_minor)) s.db.accounts (λ x. refl)
          ∙ rw (==_ne c.to_account_id c.from_account_id (λ p. apart (sym p)), et)
