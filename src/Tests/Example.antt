-- ===== src/Tests/Example.antt =====
-- An environment and a database: the operator's account, Alice (user 20, account 2) and Bob (user 30,
-- account 3), each of whom was paid a bonus of 100 taka.
use pstu_hackathon.Base.{
  ℕ, ◌≡◌, refl, subst, true, false, ◌==◌, Bool-cases, inl, inr, Option, none, some, List, [], ◌∷◌,
  ◌+◌, arith,
}
use pstu_hackathon.Base.Int.{pos, int_laws}
use pstu_hackathon.Base.Table.{find, All}
use pstu_hackathon.Shared.Text.{Text, eq_text}
use pstu_hackathon.Platform.Schema.{
  User, UserStatus, Account, AccountType, AccountStatus, TransferType, RequestStatus,
}
use pstu_hackathon.Platform.Database.{Db}
use pstu_hackathon.Platform.Action.{answered, Config, Env, State}
use pstu_hackathon.Platform.Transaction.{World}
use pstu_hackathon.Platform.Canonical.{codes}
use pstu_hackathon.Ledger.{PostDoubleEntryCommand, account_key, post_double_entry}
use pstu_hackathon.Ledger.Books.{IsBalanced}
use pstu_hackathon.Ledger.Books.Posted.{post_double_entry-Keeps}

abbrev pub config : Config
config = record {
  signup_bonus_minor = 10_000;
  min_transfer_minor = 100;
  max_transfer_minor = 2_500_000;
  daily_transfer_limit_minor = 5_000_000;
  transaction_deadline_ms = 2000;
  reversal_window_seconds = 300;
  schedule_catchup_grace_ms = 3_600_000;
  schedule_max_attempts = 3;
  schedule_retry_base_seconds = 60;
  access_token_ttl_seconds = 900;
  refresh_token_ttl_seconds = 604_800;
  max_pin_attempts = 5;
  pin_lockout_minutes = 15;
  replica_configured = false;
}

abbrev pub env : Env
env = record {
  config = config;
  policy = record { window_seconds = 60; max_transfers = 5; alert_threshold_minor = pos 1_000_000 };
  now = 1_000_000;
  date_now = 1000;
  utc_date = λ t. (2026, 7, 1);
  date_utc = λ d. 0;
  random_bytes = λ n. n ∷ 0 ∷ 0 ∷ 0 ∷ 0 ∷ [];
  verify_secret = eq_text;
  refresh_token = λ n. n ∷ [];
  access_token = λ id phone. id ∷ phone ∷ [];
  wal_lsn = none;
  sha256 = λ t. 0;
  quote = λ t. t;
  collation = λ t. 0;
  add_step = λ k t. t + 86_400_000_000;
  preamble_ms = λ n. 3;
  fate = λ n. answered;
  redis_now = 1000;
  redis_up = true;
}

abbrev pub person : ℕ → ℕ → Text → User
person id phone name = record {
  id = id;
  phone = phone;
  name = name;
  password_hash = codes "secret";
  pin_hash = 49 ∷ 50 ∷ 51 ∷ 52 ∷ [];
  failed_pin_attempts = 0;
  pin_locked_until = none;
  status = UserStatus.active;
}

abbrev pub empty_account : ℕ → Option ℕ → AccountType → Account
empty_account id user type = record {
  id = id;
  user_id = user;
  type = type;
  status = AccountStatus.active;
  balance_minor = pos 0;
  version = 0;
}

abbrev pub opened : Db
opened = record {
  next_id = 100;
  users = person 30 1730 (codes "Bob") ∷ person 20 1720 (codes "Alice") ∷ [];
  accounts =
      empty_account 3 (some 30) AccountType.user
      ∷ empty_account 2 (some 20) AccountType.user
      ∷ empty_account 1 none AccountType.system
      ∷ [];
  transfers = [];
  ledger_entries = [];
  money_requests =
      record {
        id = 50;
        requester_user_id = 30;
        payer_user_id = 20;
        amount_minor = pos 1500;
        note = none;
        status = RequestStatus.pending;
        expires_at = 9_000_000;
        settled_transfer_id = none;
        decline_reason = none;
        version = 0;
        split_id = none;
        created_at = 1;
      }
      ∷ [];
  bill_splits = [];
  scheduled_transfers = [];
  schedule_occurrences = [];
  idempotency_keys = [];
  outbox_events = [];
  notifications = [];
  refresh_tokens = [];
  audit_logs = [];
}

abbrev pub bonus : ℕ → PostDoubleEntryCommand
bonus account = record {
  from_account_id = 1;
  to_account_id = account;
  amount_minor = pos 10_000;
  type = TransferType.mint;
  note = none;
  idempotency_key_id = none;
  reversal_of = none;
}

abbrev pub funded : State
funded =
    (post_double_entry (bonus 3) env
      (post_double_entry (bonus 2) env (record { db = opened; hooks = [] })).1).1

abbrev pub world : World
world = record { db = funded.db; cache = λ id. none; positions = []; alerts = [] }

some_inj : {y z : Account} → some y ≡ some z → y ≡ z
some_inj q = cc

find-All :
    (P : Account → Type 0) (k : ℕ) (a : Account) (accounts : List Account)
    → All P accounts
    → find account_key k accounts ≡ some a
    → P a
find-All P k a [] h e = cc
find-All P k a (x ∷ xs) (p, h) e = elim (Bool-cases (x.id == k)) [
  | inl same ↦ subst P (some_inj {y = x} {z = a} (rw same at e)) p
  | inr other ↦ find-All P k a xs h (rw other at e)
]

no_money :
    (k : ℕ) (a : Account) → find account_key k opened.accounts ≡ some a → a.balance_minor ≡ pos 0
no_money k a =
    find-All (λ x. x.balance_minor ≡ pos 0) k a opened.accounts (refl, (refl, (refl, tt)))

opened-IsBalanced : IsBalanced (record { db = opened; hooks = [] })
opened-IsBalanced = record {
  keyed = (refl, (refl, (refl, tt)));
  matched = no_money;
  zero_sum = omega int_laws;
  covered = λ k a e u. rw (no_money k a e) (omega arith);
  complete = tt;
  owned = tt;
  fresh_accounts = (omega arith, (omega arith, (omega arith, tt)));
  fresh_transfers = tt;
  fresh_entries = tt;
}

pub funded-IsBalanced : IsBalanced funded
funded-IsBalanced =
    (post_double_entry-Keeps (bonus 3)).at env _
      ((post_double_entry-Keeps (bonus 2)).at env _ opened-IsBalanced)
