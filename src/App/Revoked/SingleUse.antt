-- ===== src/App/Revoked/SingleUse.antt =====
-- A refresh token is good for one rotation.
use pstu_hackathon.Base.{
  ℕ, ◌+◌, ◌*◌, ◌/◌, ◌≡◌, refl, sym, ap, ◌∙◌, true, false, none, some, ◌∷◌, leb, ◌==◌, ==_self,
  is_some, Bool-cases, inl, inr, ==_eq,
}
use pstu_hackathon.Base.Table.{modify, find, first_where-modify, missing}
use pstu_hackathon.Shared.Text.{Text}
use pstu_hackathon.Platform.Errors.{ErrorCode, failure}
use pstu_hackathon.Platform.Schema.{User, RefreshToken}
use pstu_hackathon.Platform.Action.{
  Env, State, Result, ok, err, ask, continue, ◌>>=◌, pure, throw_if, gets, or_throw,
}
use pstu_hackathon.Platform.Transaction.{World, begin, commit, run_hooks}
use pstu_hackathon.Platform.Transaction.Attempts.{InTime}
use pstu_hackathon.Auth.Pin.{is_active}
use pstu_hackathon.Transfer.Repo.{user_key, find_user_by_id}
use pstu_hackathon.Auth.Session.{
  AuthResult, Session, auth_result, random_uuid, token_row, token_key, has_hash, find_token,
  insert_token_found, insert_refresh_token, issue_session, replace_with,
  mark_refresh_token_replaced, RefreshOutcome, rotate, on_refresh, refresh,
}
use pstu_hackathon.App.Revoked.Theft.{outcome_of, looked_up, refresh_refused}

-- the session of the token that is issued under this identifier
abbrev issued : Env → User → ℕ → Session
issued env user id = record {
  access_token = env.access_token user.id user.phone;
  refresh_token = env.refresh_token id;
  expires_in = env.config.access_token_ttl_seconds;
  token_id = id + 1;
}

module _ (token : Text) (env : Env) (w : World) (t : RefreshToken) (user : User)
    (found : find_token (env.sha256 token) w.db.refresh_tokens ≡ some t)
    (current : is_some t.revoked_at ≡ false)
    (unexpired : leb (t.expires_at / 1000) env.date_now ≡ false)
    (owned : find user_key t.user_id w.db.users ≡ some user) (active : is_active user.status ≡ true)
    (fresh : find_token (env.sha256 (env.refresh_token w.db.next_id)) w.db.refresh_tokens ≡ none)
    (time : InTime env 0) where
  -- the row of the new token
  abbrev successor : RefreshToken
  successor =
      token_row
        (record {
          user_id = user.id;
          family_id = t.family_id;
          token_hash = env.sha256 (env.refresh_token w.db.next_id);
          expires_at = (env.date_now + env.config.refresh_token_ttl_seconds * 1000) * 1000;
        })
        (w.db.next_id + 1)

  abbrev rotated_state : State
  rotated_state = record (begin w) {
    db = record w.db {
      next_id = w.db.next_id + 1 + 1;
      refresh_tokens =
          modify token_key t.id (replace_with env.now (w.db.next_id + 1))
            (successor ∷ w.db.refresh_tokens);
    };
  }

  rotates : rotate t env (begin w) ≡ (
    ok (RefreshOutcome.rotated (auth_result user (issued env user w.db.next_id))),
    rotated_state,
  )
  unfolding rotate issue_session random_uuid insert_refresh_token insert_token_found
      mark_refresh_token_replaced find_user_by_id gets or_throw ask pure throw_if ◌>>=◌ continue
  rotates = rw (unexpired, owned, active, fresh) refl

  exchanged :
      refresh token env w
      ≡ (ok (auth_result user (issued env user w.db.next_id)), commit env rotated_state w)
  unfolding on_refresh pure
  exchanged =
      outcome_of token env w t found time
        (RefreshOutcome.rotated (auth_result user (issued env user w.db.next_id))) rotated_state
        (looked_up token env w t found time ∙ rw current rotates)

  unlike : (successor.token_hash == env.sha256 token) ≡ false
  unlike = elim (Bool-cases (successor.token_hash == env.sha256 token)) [
    | inl same ↦
        absurd (
          missing (sym fresh ∙ ap (λ h. find_token h w.db.refresh_tokens) (==_eq _ _ same) ∙ found))
    | inr other ↦ other
  ]

  -- the row of the old token afterwards
  abbrev used : RefreshToken
  used = replace_with env.now (w.db.next_id + 1) t

  marked : find_token (env.sha256 token) rotated_state.db.refresh_tokens ≡ some used
  marked =
      first_where-modify token_key (has_hash (env.sha256 token)) t.id
        (replace_with env.now (w.db.next_id + 1)) (successor ∷ w.db.refresh_tokens) {x = t}
        (λ y. refl) (rw unlike found)
      ∙ rw (==_self t.id) refl

  -- A refresh token that is not revoked or expired, of an active user, is exchanged for a new session, if
  -- the digest of the new token is nobody's and the connection comes back in time. Presented again at
  -- once, on a connection that comes back in time, it is refused as unauthenticated.
  pub refresh_once :
      (later : Env)
      → later.sha256 token ≡ env.sha256 token
      → InTime later 0
      → ((refresh token env w).0 ≡ ok (auth_result user (issued env user w.db.next_id)))
        × ((refresh token later (refresh token env w).1).0
            ≡ err (failure ErrorCode.unauthenticated))
  unfolding commit run_hooks
  refresh_once later same soon = (
    ap (λ (o : Result AuthResult × World). o.0) exchanged,
    ap (λ (o : Result AuthResult × World). (refresh token later o.1).0) exchanged
        ∙ refresh_refused token later (commit env rotated_state w) used
            (ap (λ h. find_token h rotated_state.db.refresh_tokens) same ∙ marked) soon refl,
  )
