-- ===== src/Platform/Action/Yields.antt =====
-- What actions promise when they return: rules like those of `Keeps`, for one environment.
use pstu_hackathon.Base.{Bool, true, false, if◌then◌else◌}
use pstu_hackathon.Platform.Errors.{AppError}
use pstu_hackathon.Platform.Action.{Env, Action, Result, ok, err, throw, ask, continue, ◌>>=◌}
use pstu_hackathon.Platform.Action.Keeps.{Keeps}

-- `Q` of the value and the state, if there is a value
abbrev pub After : {S A : Type 0} → (A → S → Type 0) → Result A × S → Type 0
After Q (ok a, s) = Q a s
After Q (err e, s) = Unit

-- If `m` returns from a state with `P`, then `Q` holds.
pub record Yields {S A : Type 0} (env : Env) (P : S → Type 0) (Q : A → S → Type 0) (m : Action S A)
    : Type 0 where
  pub at : (s : S) → P s → After Q (m env s)

module _ {S A : Type 0} {env : Env} {P : S → Type 0} {Q : A → S → Type 0} where
  pub throw-Yields : (e : AppError) → Yields env P Q (throw e)
  unfolding throw
  throw-Yields e = record { at = λ s h. tt }

  pub ask-Yields : (f : Env → Action S A) → Yields env P Q (f env) → Yields env P Q (ask >>= f)
  unfolding ◌>>=◌ ask continue
  ask-Yields f k = record { at = k.at }

module _ {S A B : Type 0} {env : Env} {P : S → Type 0} {Q : B → S → Type 0} where
  continue-Yields :
      (r : Result A) (f : A → Action S B) (s : S)
      → ((a : A) → Yields env P Q (f a))
      → P s
      → After Q (continue r f env s)
  unfolding continue
  continue-Yields (ok a) f s k h = (k a).at s h
  continue-Yields (err e) f s k h = tt

  pub bind-Yields :
      (m : Action S A) (f : A → Action S B)
      → Keeps P m
      → ((a : A) → Yields env P Q (f a))
      → Yields env P Q (m >>= f)
  unfolding ◌>>=◌
  bind-Yields m f km kf = record {
    at = λ s h. let (r, s') = m env s in continue-Yields r f s' kf (km.at env s h);
  }

module _ {S A B : Type 0} {env : Env} {P R : S → Type 0} {Q : B → S → Type 0} where
  -- The first step establishes `R`, and the rest goes on from there.
  pub then-Yields :
      (m : Action S A) (f : A → Action S B)
      → ((s : S) → P s → R (m env s).1)
      → ((a : A) → Yields env R Q (f a))
      → Yields env P Q (m >>= f)
  unfolding ◌>>=◌
  then-Yields m f km kf = record {
    at = λ s h. let (r, s') = m env s in continue-Yields r f s' kf (km s h);
  }

kept :
    {S A : Type 0} {P : S → Type 0} {Q : A → S → Type 0} (o : Result A × S)
    → ((a : A) (s : S) → P s → Q a s)
    → P o.1
    → After Q o
kept (ok a, s) k h = k a s h
kept (err e, s) k h = tt

module _ {S A : Type 0} {env : Env} {P : S → Type 0} where
  -- An action that keeps `P` ends with what follows from `P`.
  pub Keeps-Yields :
      {Q : A → S → Type 0} (m : Action S A)
      → ((a : A) (s : S) → P s → Q a s)
      → Keeps P m
      → Yields env P Q m
  Keeps-Yields m k km = record { at = λ s h. kept (m env s) k (km.at env s h) }

  -- a weaker start
  pub from-Yields :
      {P' : S → Type 0} {Q : A → S → Type 0} (m : Action S A)
      → ((s : S) → P' s → P s)
      → Yields env P Q m
      → Yields env P' Q m
  from-Yields m k y = record { at = λ s h. y.at s (k s h) }

  pub if-Yields :
      {Q : A → S → Type 0} (b : Bool) (m n : Action S A)
      → Yields env P Q m
      → Yields env P Q n
      → Yields env P Q (if b then m else n)
  if-Yields true m n km kn = km
  if-Yields false m n km kn = kn
