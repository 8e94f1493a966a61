-- ===== src/Ledger/Exact.antt =====
-- `postDoubleEntry` carries out the verdict of the rule, and nothing else.
use pstu_hackathon.Base.{
  ℕ, ◌≡◌, ◌≢◌, refl, ◌∙◌, ap, ◌⊎◌, inl, inr, true, false, ◌&&◌, not, none, some, arith, ◌==◌,
  Bool-cases, Option-cases,
}
use pstu_hackathon.Base.Int.{pos, ◌≤ℤ◌, ◌<ℤ◌, ltb_ℤ, leb_ℤ}
use pstu_hackathon.Base.Table.{find, key-find}
use pstu_hackathon.Platform.Errors.{ErrorCode, failure}
use pstu_hackathon.Platform.Schema.{Account}
use pstu_hackathon.Platform.Action.{Env, State, Result, ok, err, ◌>>=◌}
use pstu_hackathon.Platform.Action.Steps.{bind_ok, bind_err, passes, throws}
use pstu_hackathon.Ledger.{
  PostDoubleEntryCommand, account_key, is_active, is_closed, is_user, move_locked, record_movement,
  next_reference, lock_account_pair, post_double_entry,
}
use pstu_hackathon.Ledger.Outcome.{
  judge, verdict, posted, moved, moved_accounts, carry_out, IsCovered, found_pair,
  lock_account_pair_lem, updates_lem,
}

module _ (c : PostDoubleEntryCommand) (env : Env) (s : State) (from to : Account) where
  record_movement_lem :
      from.id ≡ c.from_account_id
      → to.id ≡ c.to_account_id
      → record_movement c from to env
          (record s { db = record s.db { accounts = moved_accounts c s.db.accounts } })
        ≡ (ok (posted c env s from to), moved c env s from to)
  unfolding record_movement ◌>>=◌ next_reference
  record_movement_lem ef et = rw (ef, et) refl

  move_locked_lem :
      pos 0 <ℤ c.amount_minor
      → c.from_account_id ≢ c.to_account_id
      → find account_key c.from_account_id s.db.accounts ≡ some from
      → find account_key c.to_account_id s.db.accounts ≡ some to
      → (is_user to.type ≡ true → pos 0 ≤ℤ to.balance_minor)
      → move_locked c (from, to) env s ≡ carry_out c env s (judge c from to)
  unfolding move_locked judge
  move_locked_lem positive apart ef et covered = elim (Bool-cases (not (is_active from.status))) [
    | inl frozen ↦ throws _ _ env s frozen ∙ rw frozen
    | inr active ↦ passes _ _ env s active ∙ elim (Bool-cases (is_closed to.status)) [
      | inl closed ↦ throws _ _ env s closed ∙ rw (active, closed)
      | inr open_ ↦
          passes _ _ env s open_
          ∙ elim (Bool-cases (is_user from.type && ltb_ℤ from.balance_minor c.amount_minor)) [
            | inl short ↦ throws _ _ env s short ∙ rw (active, open_, short)
            | inr funds ↦
                passes _ _ env s funds
                ∙ rw (active, open_, funds)
                    (bind_ok _ _ (
                        rw (ef_id, et_id)
                          (updates_lem c env s from to _ positive apart ef et funds covered))
                      ∙ record_movement_lem ef_id et_id)
          ]
    ]
  ]
    where
      ef_id : from.id ≡ c.from_account_id
      ef_id = key-find account_key c.from_account_id from s.db.accounts ef

      et_id : to.id ≡ c.to_account_id
      et_id = key-find account_key c.to_account_id to s.db.accounts et

module _ (c : PostDoubleEntryCommand) (env : Env) (s : State) where
  abbrev Found : ℕ → Type 0
  Found k =
      (find account_key k s.db.accounts ≡ none)
      ⊎ ((a : Account) × (find account_key k s.db.accounts ≡ some a))

  locked :
      (o : Result (Account × Account))
      → found_pair c.from_account_id c.to_account_id s.db.accounts ≡ o
      → lock_account_pair c.from_account_id c.to_account_id env s ≡ (o, s)
  locked o h =
      lock_account_pair_lem c.from_account_id c.to_account_id env s
      ∙ ap {B = Result (Account × Account) × State} (λ (p : Result (Account × Account)). (p, s)) h

  rest :
      IsCovered s.db.accounts
      → leb_ℤ c.amount_minor (pos 0) ≡ false
      → ((c.from_account_id == c.to_account_id) ≡ true)
        ⊎ ((c.from_account_id == c.to_account_id) ≡ false)
      → Found c.from_account_id
      → Found c.to_account_id
      → (lock_account_pair c.from_account_id c.to_account_id >>= move_locked c) env s
        ≡ carry_out c env s (verdict c s.db.accounts)
  unfolding verdict
  rest covered positive (inl same) f t =
      bind_err _ _ (locked (err (failure ErrorCode.self_transfer)) (rw same)) ∙ rw (positive, same)
  rest covered positive (inr apart) (inl ef) t =
      bind_err _ _ (locked (err (failure ErrorCode.not_found)) (rw (apart, ef)))
      ∙ rw (positive, apart, ef)
  rest covered positive (inr apart) (inr (from, ef)) (inl et) =
      bind_err _ _ (locked (err (failure ErrorCode.not_found)) (rw (apart, ef, et)))
      ∙ rw (positive, apart, ef, et)
  rest covered positive (inr apart) (inr (from, ef)) (inr (to, et)) =
      bind_ok _ _ (locked (ok (from, to)) (rw (apart, ef, et)))
      ∙ move_locked_lem c env s from to (ground arith) (ground arith) ef et (covered _ to et)
      ∙ rw (positive, apart, ef, et)

  -- In a database where no user's balance is negative, `postDoubleEntry` on any command carries out the
  -- verdict of the rule: it throws the rule's error and leaves the transaction's state alone, or it
  -- debits the one account, credits the other, raises both versions, adds one transfer with its two
  -- entries, and registers the two cache writes with the new balances and versions.
  pub post_double_entry_exact :
      IsCovered s.db.accounts
      → post_double_entry c env s ≡ carry_out c env s (verdict c s.db.accounts)
  unfolding post_double_entry verdict
  post_double_entry_exact covered = elim (Bool-cases (leb_ℤ c.amount_minor (pos 0))) [
    | inl low ↦ throws _ _ env s low ∙ rw low
    | inr positive ↦
        passes _ _ env s positive
        ∙ rest covered positive (Bool-cases (c.from_account_id == c.to_account_id))
            (Option-cases (find account_key c.from_account_id s.db.accounts))
            (Option-cases (find account_key c.to_account_id s.db.accounts))
  ]
