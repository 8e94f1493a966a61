-- ===== src/Ledger/Books/Accounts.antt =====
-- Balances under an update of one account.
use pstu_hackathon.Base.{
  ℕ, ◌≡◌, ◌≢◌, refl, sym, ◌∙◌, true, none, some, List, [], ◌∷◌, arith, ◌==◌, if◌then◌else◌, ==_ne,
  ==_eq, inl, inr, Bool-cases, Option-cases, ap,
}
use pstu_hackathon.Base.Int.{ℤ, ◌+ℤ◌, ◌-ℤ◌, +ℤ_front, cancel_move, int_laws}
use pstu_hackathon.Base.Table.{find, modify, IsKeyed, find-modify, modify-IsKeyed, apply_if}
use pstu_hackathon.Platform.Schema.{Account}
use pstu_hackathon.Ledger.{account_key, with_balance}
use pstu_hackathon.Ledger.Books.{total}

total-modify_absent :
    (k : ℕ) (f : ℤ → ℤ) (xs : List Account)
    → find account_key k xs ≡ none
    → modify account_key k (with_balance f) xs ≡ xs
total-modify_absent k f [] h = refl
total-modify_absent k f (x ∷ xs) h = ground (arith, total-modify_absent k f xs)

-- The total moves by what the one balance moves.
pub total-modify :
    (k : ℕ) (f : ℤ → ℤ) (a : Account) (xs : List Account)
    → IsKeyed account_key xs
    → find account_key k xs ≡ some a
    → total (modify account_key k (with_balance f) xs) +ℤ a.balance_minor
      ≡ total xs +ℤ f a.balance_minor
total-modify k f a [] h e = cc
total-modify k f a (x ∷ xs) (new, h) e = elim (Bool-cases (x.id == k)) [
  | inl hit ↦
      rw (hit, total-modify_absent k f xs (rw (==_eq x.id k hit) at new), ← found hit)
        (omega int_laws)
  | inr miss ↦ rw miss (
      +ℤ_front x.balance_minor (total (modify account_key k (with_balance f) xs)) a.balance_minor
        (total xs) (f a.balance_minor) (total-modify k f a xs h (rw miss at e)))
]
  where
    found : (x.id == k) ≡ true → x ≡ a
    found hit = cc (rw hit at e)

module _ (accounts : List Account) {m n : ℕ} (apart : m ≢ n) (x : ℤ) {from to : Account}
    (ef : find account_key m accounts ≡ some from)
    (et : find account_key n accounts ≡ some to) where
  abbrev debit : Account → Account
  debit = with_balance (λ b. b -ℤ x)

  abbrev credit : Account → Account
  credit = with_balance (λ b. b +ℤ x)

  -- the accounts after a movement of `x` from `m` to `n`
  abbrev after : List Account
  after = modify account_key n credit (modify account_key m debit accounts)

  find_debited : find account_key n (modify account_key m debit accounts) ≡ some to
  find_debited =
      find-modify account_key n m debit accounts (λ a. refl)
      ∙ rw (==_ne n m (λ p. apart (sym p)), et)

  -- A movement leaves the total as it was.
  pub total_moved : IsKeyed account_key accounts → total after ≡ total accounts
  total_moved keyed =
      cancel_move (total accounts) (total (modify account_key m debit accounts)) (total after)
        from.balance_minor to.balance_minor x (total-modify m (λ b. b -ℤ x) from accounts keyed ef)
        (total-modify n (λ b. b +ℤ x) to (modify account_key m debit accounts)
          (modify-IsKeyed account_key m debit accounts (λ a. refl) keyed) find_debited)

  -- What is found under a key after the movement: who was found before, with the new balance.
  pub find_moved :
      (k : ℕ) (a : Account)
      → find account_key k after ≡ some a
      → (b : Account) × (find account_key k accounts ≡ some b)
        × (a.id ≡ b.id)
        × (a.type ≡ b.type)
        × (a.balance_minor ≡ (
            if k == n
            then b.balance_minor +ℤ x
            else if k == m
            then b.balance_minor -ℤ x
            else b.balance_minor))
  find_moved k a h = elim (Option-cases (find account_key k accounts)) [
    | inl e ↦ absurd (ground (arith, shape, e))
    | inr (b, e) ↦
        (b, e, ground (arith, shape, e), ground (arith, shape, e), ground (arith, shape, e))
  ]
    where
      shape :
          find account_key k after
          ≡ apply_if (k == n) credit (apply_if (k == m) debit (find account_key k accounts))
      shape =
          find-modify account_key k n credit (modify account_key m debit accounts) (λ a. refl)
          ∙ ap (apply_if (k == n) credit) (find-modify account_key k m debit accounts (λ a. refl))
