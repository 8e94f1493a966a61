-- ===== src/Auth/Pin/Right.antt =====
-- The right PIN of a user without failures changes nothing.
use pstu_hackathon.Base.{ℕ, ◌≡◌, refl, true, false, ◌||◌, some, ltb, is_some}
use pstu_hackathon.Base.Table.{find}
use pstu_hackathon.Shared.Text.{Text}
use pstu_hackathon.Platform.Schema.{User}
use pstu_hackathon.Platform.Action.{Env, ok, ◌>>=◌}
use pstu_hackathon.Platform.Transaction.{World}
use pstu_hackathon.Auth.Pin.{user_key, is_active, is_locked, verify_pin}

pub verify_pin_right :
    (id : ℕ) (pin : Text) (env : Env) (w : World) (u : User)
    → find user_key id w.db.users ≡ some u
    → is_active u.status ≡ true
    → is_locked u.pin_locked_until env.date_now ≡ false
    → env.verify_secret u.pin_hash pin ≡ true
    → (ltb 0 u.failed_pin_attempts || is_some u.pin_locked_until) ≡ false
    → verify_pin id pin env w ≡ (ok tt, w)
unfolding verify_pin ◌>>=◌
verify_pin_right id pin env w u found active open_ right clean =
    rw (found, active, open_, right, clean) refl
