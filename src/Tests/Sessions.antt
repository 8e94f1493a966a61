-- ===== src/Tests/Sessions.antt =====
-- A refresh token of Alice's that has been rotated away is presented again.
use pstu_hackathon.Base.{◌≡◌, refl, some, none, [], ◌∷◌, arith}
use pstu_hackathon.Platform.Errors.{ErrorCode, failure}
use pstu_hackathon.Platform.Schema.{RefreshToken}
use pstu_hackathon.Platform.Action.{Env, ok, err}
use pstu_hackathon.Platform.Transaction.{World}
use pstu_hackathon.Auth.Session.{refresh}
use pstu_hackathon.App.{here}
use pstu_hackathon.App.Revoked.Theft.{theft_contained}
use pstu_hackathon.App.Revoked.SingleUse.{refresh_once}
use pstu_hackathon.Platform.Canonical.{codes}
use pstu_hackathon.Tests.Example.{env, opened, person}

-- a digest by which these tokens can be told apart
abbrev digests : Env
digests = record env { sha256 = λ t. elim t [ [] ↦ 0 | c ∷ cs ↦ c ] }

abbrev rotated_away : RefreshToken
rotated_away = record {
  id = 90;
  user_id = 20;
  family_id = 89;
  token_hash = 5;
  expires_at = 9_000_000;
  revoked_at = some 700;
  replaced_by = some 91;
}

abbrev current : RefreshToken
current = record rotated_away { id = 91; token_hash = 6; revoked_at = none; replaced_by = none }

abbrev logged_in : World
logged_in = record {
  db = record opened { refresh_tokens = current ∷ rotated_away ∷ [] };
  cache = λ id. none;
  positions = [];
  alerts = [];
}

theft_contained_example :
    (refresh (6 ∷ []) digests (refresh (5 ∷ []) digests logged_in).1).0
    ≡ err (failure ErrorCode.unauthenticated)
unfolding refresh pstu_hackathon.Platform.Action.◌>>=◌
    pstu_hackathon.Platform.Transaction.with_transaction pstu_hackathon.Platform.Transaction.attempt
    pstu_hackathon.Auth.Session.find_refresh_token_by_hash pstu_hackathon.Auth.Session.revoke_family
    pstu_hackathon.Platform.Outbox.insert_audit_log pstu_hackathon.Platform.Transaction.commit
theft_contained_example =
    theft_contained (5 ∷ []) (6 ∷ []) digests digests logged_in
      (refresh (5 ∷ []) digests logged_in).1 rotated_away
      (record current { revoked_at = some 1_000_000 }) refl refl refl (omega arith) (refl, refl)
      here refl refl (refl, refl)

abbrev first_login : World
first_login = record logged_in { db = record opened { refresh_tokens = current ∷ [] } }

refresh_once_example :
    ((refresh (6 ∷ []) digests first_login).0
      ≡ ok (record {
        user_id = 20;
        phone = 1720;
        name = codes "Alice";
        access_token = 20 ∷ 1720 ∷ [];
        refresh_token = opened.next_id ∷ [];
        expires_in = digests.config.access_token_ttl_seconds;
      }))
    × ((refresh (6 ∷ []) digests (refresh (6 ∷ []) digests first_login).1).0
        ≡ err (failure ErrorCode.unauthenticated))
refresh_once_example =
    refresh_once (6 ∷ []) digests first_login current (person 20 1720 (codes "Alice")) refl refl
      refl refl refl refl (refl, refl) digests refl (refl, refl)
