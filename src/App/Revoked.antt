-- ===== src/App/Revoked.antt =====
-- Where a refresh token that has been rotated away is presented again, its family is dead for ever.
pub mod SingleUse
pub mod Theft
use pstu_hackathon.Base.{
  ℕ, ◌<◌, ◌≡◌, ◌≢◌, refl, sym, subst, ◌∙◌, arith, Bool, true, false, ◌&&◌, not, Option, none, some,
  List, [], ◌∷◌, is_some, Bool-cases, inl, inr, ◌==◌, ==_eq,
}
use pstu_hackathon.Base.Table.{All, All-imp, All-modify, first_where-All, modify}
use pstu_hackathon.Shared.Text.{Text}
use pstu_hackathon.Platform.Errors.{ErrorCode, failure}
use pstu_hackathon.Platform.Schema.{RefreshToken, Transfer}
use pstu_hackathon.Platform.Action.{Env, State, Result, ok, err}
use pstu_hackathon.Platform.Action.Keeps.{Keeps}
use pstu_hackathon.Platform.Transaction.{World}
use pstu_hackathon.Transfer.Steady.{OnWorld}
use pstu_hackathon.Reversal.{claim_reversal}
use pstu_hackathon.Request.Updates.{chosen}
use pstu_hackathon.Request.Aside as RequestAside
use pstu_hackathon.Split.Steady.{unseen}
use pstu_hackathon.Schedule.Aside as ScheduleAside
use pstu_hackathon.Dispatcher.Steady.{unseen_outbox}
use pstu_hackathon.Auth.Session.{
  NewToken, find_token, has_hash, token_key, replace_with, random_uuid, insert_token_found,
  insert_refresh_token, mark_refresh_token_replaced, revoke_where, revoke_tokens, is_of_family,
}
use pstu_hackathon.Auth.Session.Steady.{SessionSteady}
use pstu_hackathon.App.{Reaches}
use pstu_hackathon.App.Apart
use pstu_hackathon.App.Steady.{Reaches-OnWorld}

module _ (family : ℕ) where
  abbrev pub IsOver : RefreshToken → Type 0
  IsOver t = t.family_id ≡ family → is_some t.revoked_at ≡ true

  -- The family's identifier has been given out, and all of its tokens are revoked.
  abbrev pub IsDead : State → Type 0
  IsDead s = (family < s.db.next_id) × All IsOver s.db.refresh_tokens

  abbrev Other : ℕ → Type 0
  Other f = f ≢ family

  inserted :
      (n : NewToken) (old : Option RefreshToken) (s : State)
      → Other n.family_id
      → IsDead s
      → IsDead (insert_token_found n old s).1
  unfolding insert_token_found
  inserted n (some old) s g h = h
  inserted n none s g h = (omega (arith, h.0), ((λ e. absurd (g e)), h.1))

  revoked_still :
      (p : RefreshToken → Bool) (now : ℕ) (ts : List RefreshToken)
      → All IsOver ts
      → All IsOver (revoke_where p now ts)
  unfolding revoke_where
  revoked_still p now [] h = tt
  revoked_still p now (t ∷ ts) h = elim (Bool-cases (p t && not (is_some t.revoked_at))) [
    | inl hit ↦ rw hit ((λ e. refl), revoked_still p now ts h.1)
    | inr miss ↦ rw miss (h.0, revoked_still p now ts h.1)
  ]

  sessions : SessionSteady IsDead Other
  unfolding random_uuid insert_refresh_token mark_refresh_token_replaced revoke_tokens
  sessions = record {
    uuid = record { at = λ env s h. (omega (arith, h.0), h.1) };
    fresh = λ s h e. omega (arith, h.0, e);
    insertion = λ n g. record {
      at = λ env s h. inserted n (find_token n.token_hash s.db.refresh_tokens) s g h;
    };
    live = λ hash s t h f now_live e.
        absurd (both (first_where-All IsOver (has_hash hash) s.db.refresh_tokens h.1 f e) now_live);
    replacement = λ id by. record {
      at = λ env s h. (
        h.0,
        All-modify token_key id (replace_with env.now by) s.db.refresh_tokens (λ t k e. refl) h.1,
      );
    };
    revocation =
        λ p. record { at = λ env s h. (h.0, revoked_still p env.now s.db.refresh_tokens h.1) };
  }
    where
      both : {b : Bool} → b ≡ true → b ≡ false → ⊥
      both p q = cc

  marking : (t : Transfer) → Keeps IsDead (claim_reversal t)
  unfolding claim_reversal
  marking t = record { at = λ env s h. chosen IsDead _ _ _ _ s (λ e. h) h }

  -- A family whose tokens are all revoked stays so.
  pub Reaches-IsDead : {w v : World} → Reaches w v → OnWorld IsDead w → OnWorld IsDead v
  Reaches-IsDead = Reaches-OnWorld (record {
    shared = Apart.apart (λ s n us as' ts es ks evs logs hs le h. (omega (arith, h.0, le), h.1));
    marking = marking;
    requests =
        RequestAside.apart (record { requests = λ s n rs le h. (omega (arith, h.0, le), h.1) });
    splits = unseen (λ s n bs le h. (omega (arith, h.0, le), h.1));
    schedules =
        ScheduleAside.apart
          (record { schedules = λ s n ss os le h. (omega (arith, h.0, le), h.1) });
    sessions = sessions;
    outbox = unseen_outbox (λ s es ns h. h);
  })
