-- ===== src/Ledger/Aside.antt =====
-- `postDoubleEntry` keeps what survives its three kinds of write, on any database.
use pstu_hackathon.Base.{ℕ, Bool, true, false, List, if◌then◌else◌}
use pstu_hackathon.Base.Int.{ℤ}
use pstu_hackathon.Shared.Text.{Text}
use pstu_hackathon.Platform.Errors.{AppError}
use pstu_hackathon.Platform.Schema.{Account}
use pstu_hackathon.Platform.Action.{Hook, State, Result, ok, err, Tx}
use pstu_hackathon.Platform.Action.Keeps.{Keeps, keeps_rules}
use pstu_hackathon.Ledger.{
  PostDoubleEntryCommand, lock_account_pair, update_balance, rethrow, insert_movement, after_commit,
  record_movement, move_locked, post_double_entry,
}

-- `P` survives an update of the accounts, a registered hook, and the insertion of a movement.
pub record Aside (P : State → Type 0) : Type 0 where
  pub hooks : (hs : List Hook) (s : State) → P s → P (record s { hooks = hs })
  pub accounts :
      (as' : List Account) (s : State) → P s → P (record s { db = record s.db { accounts = as' } })
  pub movement :
      (c : PostDoubleEntryCommand) (reference : Text) (x y : ℤ)
      → Keeps P (insert_movement c reference x y)

rethrown :
    (P : State → Type 0) (f : AppError → AppError) (o : Result (Unit {0}) × State)
    → P o.1
    → (let q : Result (Unit {0}) × State = elim o.0 [
      | ok a ↦ (ok a, o.1)
      | err e ↦ (err (f e), o.1)
    ] in
        P q.1)
rethrown P f (ok a, s) h = h
rethrown P f (err e, s) h = h

module _ {P : State → Type 0} where
  lock_account_pair-Keeps : (i j : ℕ) → Keeps P (lock_account_pair i j)
  unfolding lock_account_pair
  lock_account_pair-Keeps i j = search keeps_rules depth 24

  rethrow-Keeps : (f : AppError → AppError) (m : Tx (Unit {0})) → Keeps P m → Keeps P (rethrow f m)
  unfolding rethrow
  rethrow-Keeps f m k = record { at = λ env s h. rethrown P f (m env s) (k.at env s h) }

module _ {P : State → Type 0} (a : Aside P) where
  changed :
      (b : Bool) (o p : Result (Unit {0})) (as' : List Account) (s : State)
      → P s
      → P
          (if◌then◌else◌ {A = Result (Unit {0}) × State} b
            (p, s)
            (o, record s { db = record s.db { accounts = as' } })).1
  changed true o p as' s h = h
  changed false o p as' s h = a.accounts as' s h

  update_balance-Keeps : (id : ℕ) (f : ℤ → ℤ) → Keeps P (update_balance id f)
  unfolding update_balance
  update_balance-Keeps id f = record { at = λ env s h. changed _ _ _ _ s h }

  after_commit-Keeps : (hook : Hook) → Keeps P (after_commit hook)
  unfolding after_commit pstu_hackathon.Platform.Action.update
  after_commit-Keeps hook = record { at = λ env s h. a.hooks _ s h }

  insert_movement-Keeps :
      (c : PostDoubleEntryCommand) (reference : Text) (x y : ℤ)
      → Keeps P (insert_movement c reference x y)
  insert_movement-Keeps = a.movement

  record_movement-Keeps :
      (c : PostDoubleEntryCommand) (x y : Account) → Keeps P (record_movement c x y)
  unfolding record_movement
  record_movement-Keeps c x y =
      search (keeps_rules, after_commit-Keeps, insert_movement-Keeps) depth 24

  move_locked-Keeps :
      (c : PostDoubleEntryCommand) (p : Account × Account) → Keeps P (move_locked c p)
  unfolding move_locked
  move_locked-Keeps c (x, y) =
      search (keeps_rules, rethrow-Keeps, update_balance-Keeps, record_movement-Keeps) depth 24

  pub posting-Keeps : (c : PostDoubleEntryCommand) → Keeps P (post_double_entry c)
  unfolding post_double_entry
  posting-Keeps c = search (keeps_rules, lock_account_pair-Keeps, move_locked-Keeps) depth 24
