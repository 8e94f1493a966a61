-- ===== src/Ledger.antt =====
-- backend/src/modules/transfers/ledger.service.ts: the one function that moves money. Metrics are not
-- modelled.
pub mod Reference
pub mod Outcome
pub mod Exact
pub mod Allowed
pub mod Aside
pub mod Books
pub mod Steady
use pstu_hackathon.Base.{
  ℕ, ◌+◌, Bool, true, false, ◌&&◌, not, Option, none, some, List, [], ◌∷◌, ltb, ◌==◌, if◌then◌else◌,
}
use pstu_hackathon.Base.Int.{ℤ, pos, ◌+ℤ◌, ◌-ℤ◌, ltb_ℤ, leb_ℤ}
use pstu_hackathon.Base.Table.{find, modify}
use pstu_hackathon.Shared.Text.{Text}
use pstu_hackathon.Platform.Errors.{
  ErrorCode, SqlState, Constraint, AppError, domain, pg, failure, insufficient_funds_error,
}
use pstu_hackathon.Platform.Schema.{
  Account, AccountType, AccountStatus, Transfer, TransferType, TransferStatus, Entry, Direction,
}
use pstu_hackathon.Platform.Database.{Db}
use pstu_hackathon.Platform.Action.{
  Env, Hook, State, Result, ok, err, Tx, pure, throw, gets, or_throw, ask, throw_if, update, ◌>>=◌,
  ◌>>◌,
}
use Reference.{generate_reference}

abbrev pub account_key : Account → ℕ
account_key a = a.id

abbrev pub transfer_key : Transfer → ℕ
transfer_key t = t.id

abbrev pub is_active : AccountStatus → Bool
is_active AccountStatus.active = true
is_active AccountStatus.frozen = false
is_active AccountStatus.closed = false

abbrev pub is_closed : AccountStatus → Bool
is_closed AccountStatus.active = false
is_closed AccountStatus.frozen = false
is_closed AccountStatus.closed = true

abbrev pub is_user : AccountType → Bool
is_user AccountType.user = true
is_user AccountType.system = false

pub record PostDoubleEntryCommand : Type 0 where
  pub from_account_id : ℕ
  pub to_account_id : ℕ
  pub amount_minor : ℤ
  pub type : TransferType
  pub note : Option Text
  pub idempotency_key_id : Option ℕ
  pub reversal_of : Option ℕ

pub record PostedTransfer : Type 0 where
  pub id : ℕ
  pub reference : Text
  pub from_account_id : ℕ
  pub to_account_id : ℕ
  pub amount_minor : ℤ
  pub type : TransferType
  pub note : Option Text
  pub created_at : ℕ
  pub sender_balance_after : ℤ
  pub receiver_balance_after : ℤ

-- SELECT … FROM accounts WHERE id = $1 FOR UPDATE
unfoldable pub lock_account : ℕ → Tx (Option Account)
lock_account id = gets (λ s. find account_key id s.db.accounts)

-- Both rows, locked in ascending order of their ids.
unfoldable pub lock_account_pair : ℕ → ℕ → Tx (Account × Account)
unfolding lock_account
lock_account_pair from_id to_id = do
  throw_if (from_id == to_id) (failure ErrorCode.self_transfer)
  let first_id = if ltb from_id to_id then from_id else to_id
  let second_id = if ltb from_id to_id then to_id else from_id
  first_row ← lock_account first_id
  first ← or_throw first_row (failure ErrorCode.not_found)
  second_row ← lock_account second_id
  second ← or_throw second_row (failure ErrorCode.not_found)
  pure (if first_id == from_id then (first, second) else (second, first))

-- UPDATE accounts SET balance_minor = …, version = version + 1 WHERE id = $1, with the table's CHECK
-- that no user's balance is negative
abbrev pub with_balance : (ℤ → ℤ) → Account → Account
with_balance f a = record a { balance_minor = f a.balance_minor; version = a.version + 1 }

abbrev pub violates_check : (ℤ → ℤ) → Option Account → Bool
violates_check f none = false
violates_check f (some a) = is_user a.type && ltb_ℤ (f a.balance_minor) (pos 0)

unfoldable pub update_balance : ℕ → (ℤ → ℤ) → Tx (Unit {0})
update_balance id f env s =
    if violates_check f (find account_key id s.db.accounts)
    then (err (pg SqlState.check_violation Constraint.non_negative_user_balance), s)
    else (
      ok tt,
      record s {
        db = record s.db { accounts = modify account_key id (with_balance f) s.db.accounts };
      },
    )

-- the `catch` around the two updates
unfoldable pub translate : AppError → AppError → AppError
translate replacement (pg SqlState.check_violation Constraint.non_negative_user_balance) =
    replacement
translate replacement e = e

-- `try { m } catch (e) { throw handler(e) }`
unfoldable pub rethrow : (AppError → AppError) → Tx (Unit {0}) → Tx (Unit {0})
rethrow handler m env s =
    let (r, s') = m env s in elim r [ ok a ↦ (ok a, s') | err e ↦ (err (handler e), s') ]

abbrev pub debit_entry : ℕ → PostDoubleEntryCommand → ℤ → ℕ → Entry
debit_entry id c balance now = record {
  transfer_id = id;
  account_id = c.from_account_id;
  direction = Direction.debit;
  amount_minor = c.amount_minor;
  balance_after = balance;
  created_at = now;
}

abbrev pub credit_entry : ℕ → PostDoubleEntryCommand → ℤ → ℕ → Entry
credit_entry id c balance now = record {
  transfer_id = id;
  account_id = c.to_account_id;
  direction = Direction.credit;
  amount_minor = c.amount_minor;
  balance_after = balance;
  created_at = now;
}

abbrev pub transfer_row : ℕ → PostDoubleEntryCommand → Text → ℕ → Transfer
transfer_row id c reference now = record {
  id = id;
  reference = reference;
  from_account_id = c.from_account_id;
  to_account_id = c.to_account_id;
  amount_minor = c.amount_minor;
  type = c.type;
  status = TransferStatus.completed;
  note = c.note;
  idempotency_key_id = c.idempotency_key_id;
  reversal_of = c.reversal_of;
  created_at = now;
}

-- The one statement that writes the transfer and its two entries, all with the same `created_at`; it
-- returns the id.
unfoldable pub insert_movement : PostDoubleEntryCommand → Text → ℤ → ℤ → Tx ℕ
insert_movement c reference sender_after receiver_after env s =
    let id = s.db.next_id in
    (
      ok id,
      record s {
        db = record s.db {
          next_id = id + 1;
          transfers = transfer_row id c reference env.now ∷ s.db.transfers;
          ledger_entries =
              credit_entry id c receiver_after env.now
              ∷ debit_entry id c sender_after env.now
              ∷ s.db.ledger_entries;
        };
      },
    )

-- `tx.afterCommit(hook)`
unfoldable pub after_commit : Hook → Tx (Unit {0})
after_commit hook = update (λ s. record s { hooks = hook ∷ s.hooks })

-- The reference that the transaction's next transfer gets.
unfoldable pub next_reference : Env → State → Text
next_reference env s =
    generate_reference (env.utc_date env.date_now) (env.random_bytes s.db.next_id)

-- The end of `postDoubleEntry`, once both balances are updated.
unfoldable pub record_movement : PostDoubleEntryCommand → Account → Account → Tx PostedTransfer
unfolding insert_movement after_commit
record_movement c from to = do
  let sender_after = from.balance_minor -ℤ c.amount_minor
  let receiver_after = to.balance_minor +ℤ c.amount_minor
  env ← ask
  reference ← gets (next_reference env)
  let row = record c { from_account_id = from.id; to_account_id = to.id }
  id ← insert_movement row reference sender_after receiver_after
  after_commit (Hook.publish_balance from.id sender_after (from.version + 1))
  after_commit (Hook.publish_balance to.id receiver_after (to.version + 1))
  pure (record {
    id = id;
    reference = reference;
    from_account_id = from.id;
    to_account_id = to.id;
    amount_minor = c.amount_minor;
    type = c.type;
    note = c.note;
    created_at = env.now;
    sender_balance_after = sender_after;
    receiver_balance_after = receiver_after;
  })

-- `postDoubleEntry` from the locked pair of accounts on
unfoldable pub move_locked : PostDoubleEntryCommand → Account × Account → Tx PostedTransfer
move_locked c (from, to) = do
  throw_if (not (is_active from.status)) (failure ErrorCode.account_frozen)
  throw_if (is_closed to.status) (failure ErrorCode.account_frozen)
  let short = insufficient_funds_error from.balance_minor c.amount_minor
  throw_if (is_user from.type && ltb_ℤ from.balance_minor c.amount_minor) short
  rethrow (translate short) (do
    update_balance from.id (λ b. b -ℤ c.amount_minor)
    update_balance to.id (λ b. b +ℤ c.amount_minor))
  record_movement c from to

unfoldable pub post_double_entry : PostDoubleEntryCommand → Tx PostedTransfer
post_double_entry c = do
  throw_if (leb_ℤ c.amount_minor (pos 0)) (failure ErrorCode.validation_error)
  pair ← lock_account_pair c.from_account_id c.to_account_id
  move_locked c pair
