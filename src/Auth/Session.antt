-- ===== src/Auth/Session.antt =====
-- backend/src/modules/auth/auth.service.ts and auth.repo.ts: logging in, and the rotation of refresh tokens.
-- Decoy hashing, which only takes time, the client's address and its agent are left out.
pub mod Steady
use pstu_hackathon.Base.{
  ℕ, ◌+◌, ◌*◌, ◌/◌, Bool, true, false, ◌&&◌, not, Option, none, some, List, [], ◌∷◌, leb, ◌==◌,
  is_some, if◌then◌else◌,
}
use pstu_hackathon.Base.Table.{first_where, modify}
use pstu_hackathon.Shared.Text.{Text}
use pstu_hackathon.Shared.Money.{MoneyDto, money}
use pstu_hackathon.Platform.Errors.{ErrorCode, AppError, failure, pg, SqlState, Constraint}
use pstu_hackathon.Platform.Schema.{
  User, UserStatus, Account, RefreshToken, AggregateType, AuditAction,
}
use pstu_hackathon.Platform.Action.{
  Env, State, Result, ok, err, Tx, pure, throw, or_throw, ask, gets, throw_if, ◌>>=◌, ◌>>◌,
}
use pstu_hackathon.Platform.Transaction.{World, Handler, with_transaction}
use pstu_hackathon.Platform.Outbox.{insert_audit_log}
use pstu_hackathon.Auth.Pin.{is_active}
use pstu_hackathon.Transfer.Repo.{account_of, find_user_by_id}

pub record LoginInput : Type 0 where
  pub phone : ℕ
  pub password : Text

-- what `issueSession` returns
pub record Session : Type 0 where
  pub access_token : Text
  pub refresh_token : Text
  pub expires_in : ℕ
  pub token_id : ℕ

pub record AuthResult : Type 0 where
  pub user_id : ℕ
  pub phone : ℕ
  pub name : Text
  pub access_token : Text
  pub refresh_token : Text
  pub expires_in : ℕ

pub record LoginResult : Type 0 where
  pub auth : AuthResult
  pub account_id : ℕ
  pub balance : MoneyDto

-- `randomUUID()`: an identifier that is nobody's
unfoldable pub random_uuid : Tx ℕ
random_uuid env s = (ok s.db.next_id, record s { db = record s.db { next_id = s.db.next_id + 1 } })

abbrev pub has_hash : ℕ → RefreshToken → Bool
has_hash hash t = t.token_hash == hash

abbrev pub find_token : ℕ → List RefreshToken → Option RefreshToken
find_token hash = first_where (has_hash hash)

pub record NewToken : Type 0 where
  pub user_id : ℕ
  pub family_id : ℕ
  pub token_hash : ℕ
  pub expires_at : ℕ

abbrev pub token_row : NewToken → ℕ → RefreshToken
token_row n id = record {
  id = id;
  user_id = n.user_id;
  family_id = n.family_id;
  token_hash = n.token_hash;
  expires_at = n.expires_at;
  revoked_at = none;
  replaced_by = none;
}

-- INSERT … RETURNING id, where the digest is unique
unfoldable pub insert_token_found : NewToken → Option RefreshToken → State → Result ℕ × State
insert_token_found n (some old) s =
    (err (pg SqlState.unique_violation Constraint.other_constraint), s)
insert_token_found n none s = (
  ok s.db.next_id,
  record s {
    db = record s.db {
      next_id = s.db.next_id + 1;
      refresh_tokens = token_row n s.db.next_id ∷ s.db.refresh_tokens;
    };
  },
)

unfoldable pub insert_refresh_token : NewToken → Tx ℕ
unfolding insert_token_found
insert_refresh_token n env s = insert_token_found n (find_token n.token_hash s.db.refresh_tokens) s

unfoldable pub find_refresh_token_by_hash : ℕ → Tx (Option RefreshToken)
find_refresh_token_by_hash hash = gets (λ s. find_token hash s.db.refresh_tokens)

abbrev pub token_key : RefreshToken → ℕ
token_key t = t.id

abbrev pub replace_with : ℕ → ℕ → RefreshToken → RefreshToken
replace_with now by t = record t { revoked_at = some now; replaced_by = some by }

unfoldable pub mark_refresh_token_replaced : ℕ → ℕ → Tx (Unit {0})
mark_refresh_token_replaced id by env s = (
  ok tt,
  record s {
    db = record s.db {
      refresh_tokens = modify token_key id (replace_with env.now by) s.db.refresh_tokens;
    };
  },
)

-- UPDATE refresh_tokens SET revoked_at = now() WHERE … AND revoked_at IS NULL
unfoldable pub revoke_where : (RefreshToken → Bool) → ℕ → List RefreshToken → List RefreshToken
revoke_where p now [] = []
revoke_where p now (t ∷ ts) =
    let rest = revoke_where p now ts in
    (if p t && not (is_some t.revoked_at) then record t { revoked_at = some now } else t) ∷ rest

unfoldable pub revoke_tokens : (RefreshToken → Bool) → Tx (Unit {0})
unfolding revoke_where
revoke_tokens p env s = (
  ok tt,
  record s { db = record s.db { refresh_tokens = revoke_where p env.now s.db.refresh_tokens } },
)

abbrev pub is_of_family : ℕ → RefreshToken → Bool
is_of_family family t = t.family_id == family

unfoldable pub revoke_family : ℕ → Tx (Unit {0})
unfolding revoke_tokens
revoke_family family = revoke_tokens (is_of_family family)

unfoldable pub revoke_token : ℕ → Tx (Unit {0})
unfolding revoke_tokens
revoke_token hash = revoke_tokens (has_hash hash)

-- `issueSession`, for the row that is about to be inserted
unfoldable pub issue_session : User → ℕ → Tx Session
issue_session user family = do
  env ← ask
  id ← random_uuid
  token_id ← insert_refresh_token (record {
    user_id = user.id;
    family_id = family;
    token_hash = env.sha256 (env.refresh_token id);
    expires_at = (env.date_now + env.config.refresh_token_ttl_seconds * 1000) * 1000;
  })
  pure (record {
    access_token = env.access_token user.id user.phone;
    refresh_token = env.refresh_token id;
    expires_in = env.config.access_token_ttl_seconds;
    token_id = token_id;
  })

abbrev pub auth_result : User → Session → AuthResult
auth_result user session = record {
  user_id = user.id;
  phone = user.phone;
  name = user.name;
  access_token = session.access_token;
  refresh_token = session.refresh_token;
  expires_in = session.expires_in;
}

-- the user, if the password is theirs
abbrev pub with_password : Env → Text → Option User → Option User
with_password env password none = none
with_password env password (some u) =
    if env.verify_secret u.password_hash password then some u else none

unfoldable pub start_session : User → Account → ℕ → Tx LoginResult
unfolding issue_session
start_session user account family = do
  session ← issue_session user family
  insert_audit_log (record {
    actor_user_id = some user.id;
    action = AuditAction.user_login;
    entity_type = AggregateType.user;
    entity_id = user.id;
  })
  pure (record {
    auth = auth_result user session;
    account_id = account.id;
    balance = money account.balance_minor;
  })

unfoldable pub login_tx : User → Account → Tx LoginResult
unfolding random_uuid start_session
login_tx user account = do family ← random_uuid; start_session user account family

unfoldable pub login : LoginInput → Handler LoginResult
unfolding login_tx
login input = do
  env ← ask
  row ← gets (λ w. first_where (λ (u : User). u.phone == input.phone) w.db.users)
  user ← or_throw (with_password env input.password row) (failure ErrorCode.invalid_credentials)
  throw_if (not (is_active user.status)) (failure ErrorCode.forbidden)
  found ← gets (λ w. account_of user.id w.db.accounts)
  account ← or_throw found (failure ErrorCode.not_found)
  with_transaction (login_tx user account)

pub data RefreshOutcome : Type 0 where
  rotated : AuthResult → RefreshOutcome
  reuse_detected already_revoked : RefreshOutcome

-- A token that was rotated away comes back: its family is revoked.
unfoldable pub detect_reuse : RefreshToken → Tx RefreshOutcome
detect_reuse t = do
  revoke_family t.family_id
  insert_audit_log (record {
    actor_user_id = some t.user_id;
    action = AuditAction.refresh_token_reuse_detected;
    entity_type = AggregateType.session;
    entity_id = t.family_id;
  })
  pure reuse_detected

abbrev pub if_active : Option User → Option User
if_active none = none
if_active (some u) = if is_active u.status then some u else none

unfoldable pub rotate : RefreshToken → Tx RefreshOutcome
unfolding issue_session
rotate t = do
  env ← ask
  throw_if (leb (t.expires_at / 1000) env.date_now) (failure ErrorCode.unauthenticated)
  row ← find_user_by_id t.user_id
  user ← or_throw (if_active row) (failure ErrorCode.unauthenticated)
  session ← issue_session user t.family_id
  mark_refresh_token_replaced t.id session.token_id
  pure (rotated (auth_result user session))

abbrev pub on_token : RefreshToken → Tx RefreshOutcome
on_token t =
    if is_some t.revoked_at
    then (if is_some t.replaced_by then detect_reuse t else pure already_revoked)
    else rotate t

unfoldable pub refresh_tx : ℕ → Tx RefreshOutcome
unfolding detect_reuse rotate
refresh_tx hash = do
  found ← find_refresh_token_by_hash hash
  existing ← or_throw found (failure ErrorCode.unauthenticated)
  on_token existing

-- The rejection is thrown after the transaction has committed.
unfoldable pub on_refresh : RefreshOutcome → Handler AuthResult
on_refresh (rotated result) = pure result
on_refresh reuse_detected = throw (failure ErrorCode.unauthenticated)
on_refresh already_revoked = throw (failure ErrorCode.unauthenticated)

unfoldable pub refresh : Text → Handler AuthResult
unfolding refresh_tx on_refresh
refresh token = do
  env ← ask
  outcome ← with_transaction (refresh_tx (env.sha256 token))
  on_refresh outcome

unfoldable pub logout : Text → Handler (Unit {0})
logout token = do env ← ask; with_transaction (revoke_token (env.sha256 token))
