-- ===== src/Transfer/Repo.antt =====
-- backend/src/modules/transfers/transfer.repo.ts
use pstu_hackathon.Base.{
  ℕ, ◌+◌, Bool, true, false, ◌&&◌, Option, none, some, List, [], ◌∷◌, leb, ◌==◌, is_id,
  if◌then◌else◌,
}
use pstu_hackathon.Base.Int.{ℤ, pos, ◌+ℤ◌}
use pstu_hackathon.Base.Table.{find, first_where}
use pstu_hackathon.Shared.Text.{Text}
use pstu_hackathon.Platform.Schema.{
  User, UserStatus, Account, AccountStatus, Transfer, TransferType, TransferStatus,
}
use pstu_hackathon.Platform.Database.{Db}
use pstu_hackathon.Platform.Action.{ok, Tx, gets}

pub record PayeeAccount : Type 0 where
  pub user_id : ℕ
  pub account_id : ℕ
  pub name : Text
  pub phone : ℕ
  pub account_status : AccountStatus
  pub user_status : UserStatus

abbrev pub user_key : User → ℕ
user_key u = u.id

abbrev pub account_of : ℕ → List Account → Option Account
account_of user = first_where (λ a. is_id a.user_id user)

-- users JOIN accounts: `users.phone` and `accounts.user_id` are unique
abbrev pub join_account : User → Option Account → Option PayeeAccount
join_account u none = none
join_account u (some a) = some (record {
  user_id = u.id;
  account_id = a.id;
  name = u.name;
  phone = u.phone;
  account_status = a.status;
  user_status = u.status;
})

unfoldable pub find_payee : ℕ → Db → Option PayeeAccount
find_payee phone db = elim (first_where (λ u. u.phone == phone) db.users) [
  | none ↦ none
  | some u ↦ join_account u (account_of u.id db.accounts)
]

unfoldable pub find_payee_by_phone : ℕ → Tx (Option PayeeAccount)
unfolding find_payee
find_payee_by_phone phone = gets (λ s. find_payee phone s.db)

abbrev pub id_of : Option Account → Option ℕ
id_of none = none
id_of (some a) = some a.id

unfoldable pub find_account_id_for_user : ℕ → Tx (Option ℕ)
find_account_id_for_user user = gets (λ s. id_of (account_of user s.db.accounts))

-- `findUserById` of auth.repo.ts
unfoldable pub find_user_by_id : ℕ → Tx (Option User)
find_user_by_id user = gets (λ s. find user_key user s.db.users)

-- the types that count towards the daily limit
abbrev pub is_outbound : TransferType → Bool
is_outbound TransferType.p2p = true
is_outbound TransferType.request_settlement = true
is_outbound TransferType.scheduled = true
is_outbound TransferType.mint = false
is_outbound TransferType.reversal = false

abbrev pub is_completed : TransferStatus → Bool
is_completed TransferStatus.completed = true
is_completed TransferStatus.reversed = false

-- 24 hours, in microseconds
abbrev pub day_us : ℕ
day_us = 86_400_000_000

abbrev pub counts : ℕ → ℕ → Transfer → Bool
counts now account t =
    (t.from_account_id == account)
    && (is_outbound t.type && (is_completed t.status && leb now (t.created_at + day_us)))

-- what the account has sent since `now - 24 hours`
unfoldable pub outbound_sum : ℕ → ℕ → List Transfer → ℤ
outbound_sum now account [] = pos 0
outbound_sum now account (t ∷ ts) =
    let rest = outbound_sum now account ts in
    if counts now account t then t.amount_minor +ℤ rest else rest

unfoldable pub outbound_in_window : ℕ → Tx ℤ
unfolding outbound_sum
outbound_in_window account env s = (ok (outbound_sum env.now account s.db.transfers), s)
