-- ===== src/App/Revoked/Theft.antt =====
-- A stolen refresh token is worth nothing once its theft has been noticed.
use pstu_hackathon.Base.{
  ℕ, ◌<◌, ◌≡◌, refl, sym, subst, ap, ◌∙◌, arith, true, ◌&&◌, not, some, List, [], ◌∷◌, is_some,
  Bool-cases, inl, inr,
}
use pstu_hackathon.Base.Table.{All, first_where-All}
use pstu_hackathon.Shared.Text.{Text}
use pstu_hackathon.Platform.Errors.{ErrorCode, failure}
use pstu_hackathon.Platform.Schema.{RefreshToken, AggregateType, AuditAction}
use pstu_hackathon.Platform.Action.{
  Env, State, Result, ok, err, ask, continue, ◌>>=◌, pure, throw, gets, or_throw,
}
use pstu_hackathon.Platform.Action.Steps.{bind_ok}
use pstu_hackathon.Platform.Transaction.{World, begin, commit, run_hooks, with_transaction}
use pstu_hackathon.Platform.Transaction.Attempts.{InTime, with_transaction_ok}
use pstu_hackathon.Platform.Outbox.{insert_audit_log}
use pstu_hackathon.Transfer.Steady.{OnWorld}
use pstu_hackathon.Auth.Session.{
  AuthResult, find_token, has_hash, revoke_where, revoke_tokens, revoke_family, is_of_family,
  find_refresh_token_by_hash, RefreshOutcome, detect_reuse, on_token, refresh_tx, on_refresh,
  refresh,
}
use pstu_hackathon.App.{Reaches}
use pstu_hackathon.App.Revoked.{IsOver, IsDead, Reaches-IsDead}

revoke_where-IsOver :
    (family now : ℕ) (ts : List RefreshToken)
    → All (IsOver family) (revoke_where (is_of_family family) now ts)
unfolding revoke_where
revoke_where-IsOver family now [] = tt
revoke_where-IsOver family now (t ∷ ts) =
    elim (Bool-cases (is_of_family family t && not (is_some t.revoked_at))) [
      | inl hit ↦ rw hit ((λ e. refl), revoke_where-IsOver family now ts)
      | inr miss ↦ rw miss ((λ e. ground (arith, e, miss)), revoke_where-IsOver family now ts)
    ]

module _ (token : Text) (env : Env) (w : World) (t : RefreshToken)
    (found : find_token (env.sha256 token) w.db.refresh_tokens ≡ some t) (time : InTime env 0) where
  -- `refresh` after a transaction that returns
  pub outcome_of :
      (o : RefreshOutcome) (s : State)
      → refresh_tx (env.sha256 token) env (begin w) ≡ (ok o, s)
      → refresh token env w ≡ on_refresh o env (commit env s w)
  unfolding refresh ask ◌>>=◌ continue
  outcome_of o s h =
      bind_ok (with_transaction (refresh_tx (env.sha256 token))) on_refresh {env = env} {s = w}
        (with_transaction_ok (refresh_tx (env.sha256 token)) env w o s time h)

  pub looked_up : refresh_tx (env.sha256 token) env (begin w) ≡ on_token t env (begin w)
  unfolding refresh_tx find_refresh_token_by_hash gets or_throw ◌>>=◌ continue
  looked_up = rw found refl

  -- the state in which the family has been revoked
  abbrev caught : State
  caught = record (begin w) {
    db = record w.db {
      refresh_tokens = revoke_where (is_of_family t.family_id) env.now w.db.refresh_tokens;
      audit_logs =
          record {
            actor_user_id = some t.user_id;
            action = AuditAction.refresh_token_reuse_detected;
            entity_type = AggregateType.session;
            entity_id = t.family_id;
          }
          ∷ w.db.audit_logs;
    };
  }

  noticed : detect_reuse t env (begin w) ≡ (ok RefreshOutcome.reuse_detected, caught)
  unfolding detect_reuse revoke_family revoke_tokens insert_audit_log ◌>>=◌ continue pure
  noticed = refl

  module _ (over : is_some t.revoked_at ≡ true) where
    caught_by :
        is_some t.replaced_by ≡ true
        → refresh token env w ≡ (err (failure ErrorCode.unauthenticated), commit env caught w)
    unfolding on_refresh throw
    caught_by replaced =
        outcome_of RefreshOutcome.reuse_detected caught (looked_up ∙ rw (over, replaced) noticed)

    -- A revoked token is refused.
    pub refresh_refused : (refresh token env w).0 ≡ err (failure ErrorCode.unauthenticated)
    unfolding on_refresh throw pure
    refresh_refused = elim (Bool-cases (is_some t.replaced_by)) [
      | inl replaced ↦ ap (λ (o : Result AuthResult × World). o.0) (caught_by replaced)
      | inr lone ↦
          ap (λ (o : Result AuthResult × World). o.0)
            (outcome_of RefreshOutcome.already_revoked (begin w) (looked_up ∙ rw (over, lone) refl))
    ]

    refresh-IsDead :
        is_some t.replaced_by ≡ true
        → t.family_id < w.db.next_id
        → OnWorld (IsDead t.family_id) (refresh token env w).1
    unfolding commit run_hooks
    refresh-IsDead replaced given =
        subst (λ (o : Result AuthResult × World). OnWorld (IsDead t.family_id) o.1)
          (sym (caught_by replaced))
          (given, revoke_where-IsOver t.family_id env.now w.db.refresh_tokens)

-- Where a refresh token that has been rotated away is presented again, on a connection that comes back in
-- time, then after any further calls of anybody, one after the other, every token of its family, the
-- thief's and the owner's, is refused as unauthenticated.
pub theft_contained :
    (token other : Text) (env later : Env) (w v : World) (t u : RefreshToken)
    → find_token (env.sha256 token) w.db.refresh_tokens ≡ some t
    → is_some t.revoked_at ≡ true
    → is_some t.replaced_by ≡ true
    → t.family_id < w.db.next_id
    → InTime env 0
    → Reaches (refresh token env w).1 v
    → find_token (later.sha256 other) v.db.refresh_tokens ≡ some u
    → u.family_id ≡ t.family_id
    → InTime later 0
    → (refresh other later v).0 ≡ err (failure ErrorCode.unauthenticated)
theft_contained token other env later w v t u found over replaced given time reached there same
      soon =
    refresh_refused other later v u there soon (
      first_where-All (IsOver t.family_id) (has_hash (later.sha256 other)) v.db.refresh_tokens
        dead.1 there same)
  where
    dead : OnWorld (IsDead t.family_id) v
    dead =
        Reaches-IsDead t.family_id reached
          (refresh-IsDead token env w t found time over replaced given)
