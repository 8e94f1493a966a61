-- ===== src/Platform/Action/Keeps.antt =====
-- Invariants of actions: one rule for each way to build an action.
use pstu_hackathon.Base.{Bool, true, false, Option, none, some, if◌then◌else◌}
use pstu_hackathon.Platform.Errors.{AppError}
use pstu_hackathon.Platform.Action.{
  Env, Action, Result, ok, err, pure, throw, gets, or_throw, ask, throw_if, update, when, continue,
  ◌>>=◌,
}

-- `m` leaves `P` true, whether it returns or throws.
pub record Keeps {S A : Type 0} (P : S → Type 0) (m : Action S A) : Type 0 where
  pub at : (env : Env) (s : S) → P s → P (m env s).1

module _ {S A : Type 0} {P : S → Type 0} where
  pub pure-Keeps : (a : A) → Keeps P (pure a)
  unfolding pure
  pure-Keeps a = record { at = λ env s h. h }

  pub throw-Keeps : (e : AppError) → Keeps P (throw {A = A} e)
  unfolding throw
  throw-Keeps e = record { at = λ env s h. h }

  pub gets-Keeps : (f : S → A) → Keeps P (gets f)
  unfolding gets
  gets-Keeps f = record { at = λ env s h. h }

  pub or_throw-Keeps : (o : Option A) (e : AppError) → Keeps P (or_throw o e)
  unfolding or_throw
  or_throw-Keeps none e = record { at = λ env s h. h }
  or_throw-Keeps (some a) e = record { at = λ env s h. h }

  pub if-Keeps :
      (b : Bool) (m n : Action S A) → Keeps P m → Keeps P n → Keeps P (if b then m else n)
  if-Keeps true m n km kn = km
  if-Keeps false m n km kn = kn

module _ {S : Type 0} {P : S → Type 0} where
  pub ask-Keeps : Keeps P ask
  unfolding ask
  ask-Keeps = record { at = λ env s h. h }

  pub throw_if-Keeps : (b : Bool) (e : AppError) → Keeps P (throw_if b e)
  unfolding throw_if
  throw_if-Keeps b e = record { at = λ env s h. h }

  pub update-Keeps : (f : S → S) → ((s : S) → P s → P (f s)) → Keeps P (update f)
  unfolding update
  update-Keeps f k = record { at = λ env s h. k s h }

  pub when-Keeps : (b : Bool) (m : Action S (Unit {0})) → Keeps P m → Keeps P (when b m)
  unfolding when
  when-Keeps true m k = record { at = k.at }
  when-Keeps false m k = record { at = λ env s h. h }

module _ {S A B : Type 0} {P : S → Type 0} where
  continue-Keeps :
      (r : Result A) (f : A → Action S B) → ((a : A) → Keeps P (f a)) → Keeps P (continue r f)
  unfolding continue
  continue-Keeps (ok a) f k = record { at = (k a).at }
  continue-Keeps (err e) f k = record { at = λ env s h. h }

  pub bind-Keeps :
      (m : Action S A) (f : A → Action S B)
      → Keeps P m
      → ((a : A) → Keeps P (f a))
      → Keeps P (m >>= f)
  unfolding ◌>>=◌
  bind-Keeps m f km kf = record {
    at = λ env s h. let (r, s') = m env s in (continue-Keeps r f kf).at env s' (km.at env s h);
  }

pub ruleset keeps_rules = (
  pure-Keeps, throw-Keeps, gets-Keeps, or_throw-Keeps, if-Keeps, ask-Keeps, throw_if-Keeps,
  when-Keeps, bind-Keeps,
)
