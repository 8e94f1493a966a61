-- ===== src/Auth/Session/Steady.antt =====
-- Sessions keep a steady property that survives the writes to refresh tokens.
use pstu_hackathon.Base.{
  ℕ, ◌+◌, ◌≤◌, ◌≡◌, refl, arith, Bool, false, Option, none, some, List, is_some, Bool-cases, inl,
  inr,
}
use pstu_hackathon.Shared.Text.{Text}
use pstu_hackathon.Platform.Errors.{ErrorCode, failure}
use pstu_hackathon.Platform.Schema.{User, Account, RefreshToken}
use pstu_hackathon.Platform.Action.{Env, State, ◌>>=◌, continue, gets, or_throw}
use pstu_hackathon.Platform.Action.Keeps.{Keeps, keeps_rules, pure-Keeps, bind-Keeps, if-Keeps}
use pstu_hackathon.Ledger.Steady.{Steady, insert_audit_log-Keeps}
use pstu_hackathon.Transfer.Steady.{OnWorld, with_transaction-Keeps, transfer_rules}
use pstu_hackathon.Auth.Session.{
  NewToken, LoginInput, random_uuid, find_token, insert_token_found, insert_refresh_token,
  find_refresh_token_by_hash, mark_refresh_token_replaced, revoke_tokens, revoke_family,
  revoke_token, issue_session, start_session, login_tx, login, RefreshOutcome, detect_reuse, rotate,
  on_token, refresh_tx, on_refresh, refresh, logout,
}

-- `P` survives the writes to the table of refresh tokens, new ones in a family of `G`. A new family is in `G`
-- while `P` holds, and so is that of a token that is not revoked.
pub record SessionSteady (P : State → Type 0) (G : ℕ → Type 0) : Type 0 where
  pub uuid : Keeps P random_uuid
  pub fresh : (s : State) → P s → G s.db.next_id
  pub insertion : (n : NewToken) → G n.family_id → Keeps P (insert_refresh_token n)
  pub live :
      (hash : ℕ) (s : State) (t : RefreshToken)
      → P s
      → find_token hash s.db.refresh_tokens ≡ some t
      → is_some t.revoked_at ≡ false
      → G t.family_id
  pub replacement : (id by : ℕ) → Keeps P (mark_refresh_token_replaced id by)
  pub revocation : (p : RefreshToken → Bool) → Keeps P (revoke_tokens p)

le_self : (n : ℕ) → n ≤ n
le_self n = omega arith

le_next : (n : ℕ) → n ≤ n + 1
le_next n = omega arith

-- a property that does not look at the tokens
pub unseen_tokens :
    {P : State → Type 0}
    → ((s : State) (n : ℕ) (ts : List RefreshToken)
        → s.db.next_id ≤ n
        → P s
        → P (record s { db = record s.db { next_id = n; refresh_tokens = ts } }))
    → SessionSteady P (λ id. Unit)
unfolding random_uuid insert_refresh_token insert_token_found mark_refresh_token_replaced
    revoke_tokens
unseen_tokens {P} k = record {
  uuid = record {
    at = λ env s h. k s (s.db.next_id + 1) s.db.refresh_tokens (le_next s.db.next_id) h;
  };
  fresh = λ s h. tt;
  insertion = λ n g. record {
    at = λ env s h. inserted n (find_token n.token_hash s.db.refresh_tokens) s h;
  };
  live = λ hash s t h f r. tt;
  replacement = λ id by. record { at = λ env s h. k s s.db.next_id _ (le_self s.db.next_id) h };
  revocation = λ p. record { at = λ env s h. k s s.db.next_id _ (le_self s.db.next_id) h };
}
  where
    inserted :
        (n : NewToken) (old : Option RefreshToken) (s : State)
        → P s
        → P (insert_token_found n old s).1
    inserted n (some old) s h = h
    inserted n none s h = k s (s.db.next_id + 1) _ (le_next s.db.next_id) h

module _ {P : State → Type 0} {C G : ℕ → Type 0} (b : Steady P C) (q : SessionSteady P G) where
  random_uuid-Keeps : Keeps P random_uuid
  random_uuid-Keeps = q.uuid

  insert_refresh_token-Keeps : (n : NewToken) → G n.family_id → Keeps P (insert_refresh_token n)
  insert_refresh_token-Keeps = q.insertion

  mark_refresh_token_replaced-Keeps : (id by : ℕ) → Keeps P (mark_refresh_token_replaced id by)
  mark_refresh_token_replaced-Keeps = q.replacement

  revoke_family-Keeps : (family : ℕ) → Keeps P (revoke_family family)
  unfolding revoke_family
  revoke_family-Keeps family = q.revocation _

  issue_session-Keeps : (u : User) (family : ℕ) → G family → Keeps P (issue_session u family)
  unfolding issue_session
  issue_session-Keeps u family g =
      search (keeps_rules, random_uuid-Keeps, insert_refresh_token-Keeps) depth 24

  start_session-Keeps :
      (u : User) (a : Account) (family : ℕ) → G family → Keeps P (start_session u a family)
  unfolding start_session
  start_session-Keeps u a family g =
      search (keeps_rules, issue_session-Keeps, insert_audit_log-Keeps) depth 24

  login_tx-Keeps : (u : User) (a : Account) → Keeps P (login_tx u a)
  unfolding login_tx random_uuid ◌>>=◌ continue
  login_tx-Keeps u a = record {
    at = λ env s h.
        (start_session-Keeps u a s.db.next_id (q.fresh s h)).at env _
          (random_uuid-Keeps.at env s h);
  }

  detect_reuse-Keeps : (t : RefreshToken) → Keeps P (detect_reuse t)
  unfolding detect_reuse
  detect_reuse-Keeps t = search (keeps_rules, revoke_family-Keeps, insert_audit_log-Keeps) depth 24

  rotate-Keeps : (t : RefreshToken) → G t.family_id → Keeps P (rotate t)
  unfolding rotate
  rotate-Keeps t g =
      search (transfer_rules, issue_session-Keeps, mark_refresh_token_replaced-Keeps) depth 24

  on_token-Keeps :
      (t : RefreshToken) → (is_some t.revoked_at ≡ false → G t.family_id) → Keeps P (on_token t)
  on_token-Keeps t g = elim (Bool-cases (is_some t.revoked_at)) [
    | inl over ↦ rw over (if-Keeps _ _ _ (detect_reuse-Keeps t) (pure-Keeps _))
    | inr now_live ↦ rw now_live (rotate-Keeps t (g now_live))
  ]

  found_token :
      (hash : ℕ) (env : Env) (s : State) (o : Option RefreshToken)
      → find_token hash s.db.refresh_tokens ≡ o
      → P s
      → P ((or_throw o (failure ErrorCode.unauthenticated) >>= on_token) env s).1
  unfolding ◌>>=◌ continue or_throw
  found_token hash env s none e h = h
  found_token hash env s (some t) e h = (on_token-Keeps t (q.live hash s t h e)).at env s h

  refresh_tx-Keeps : (hash : ℕ) → Keeps P (refresh_tx hash)
  unfolding refresh_tx find_refresh_token_by_hash ◌>>=◌ continue gets
  refresh_tx-Keeps hash = record {
    at = λ env s h. found_token hash env s (find_token hash s.db.refresh_tokens) refl h;
  }

  on_refresh-Keeps : (o : RefreshOutcome) → Keeps (OnWorld P) (on_refresh o)
  unfolding on_refresh
  on_refresh-Keeps (RefreshOutcome.rotated r) = search keeps_rules
  on_refresh-Keeps RefreshOutcome.reuse_detected = search keeps_rules
  on_refresh-Keeps RefreshOutcome.already_revoked = search keeps_rules

  pub refresh-Keeps : (token : Text) → Keeps (OnWorld P) (refresh token)
  unfolding refresh
  refresh-Keeps token =
      search (keeps_rules, with_transaction-Keeps, refresh_tx-Keeps, on_refresh-Keeps) depth 16

  pub login-Keeps : (input : LoginInput) → Keeps (OnWorld P) (login input)
  unfolding login
  login-Keeps input = search (keeps_rules, with_transaction-Keeps, login_tx-Keeps) depth 24

  pub logout-Keeps : (token : Text) → Keeps (OnWorld P) (logout token)
  unfolding logout revoke_token
  logout-Keeps token =
      bind-Keeps _ _ (search keeps_rules) (λ env. with_transaction-Keeps b _ (q.revocation _))
