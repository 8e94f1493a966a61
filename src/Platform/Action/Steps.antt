-- ===== src/Platform/Action/Steps.antt =====
-- Running a block of code one step at a time.
use pstu_hackathon.Base.{◌≡◌, refl, ap, Bool, true, false}
use pstu_hackathon.Platform.Errors.{AppError}
use pstu_hackathon.Platform.Action.{Env, Action, Result, ok, err, continue, ◌>>=◌, throw_if}

module _ {S A B : Type 0} (m : Action S A) (f : A → Action S B) {env : Env} {s : S} where
  pub bind_ok : {a : A} {s' : S} → m env s ≡ (ok a, s') → (m >>= f) env s ≡ f a env s'
  unfolding ◌>>=◌
  bind_ok h = ap (λ (o : Result A × S). continue o.0 f env o.1) h

  pub bind_err : {e : AppError} {s' : S} → m env s ≡ (err e, s') → (m >>= f) env s ≡ (err e, s')
  unfolding ◌>>=◌
  bind_err h = ap (λ (o : Result A × S). continue o.0 f env o.1) h

  bind_cases :
      (o : Result A × S) {b : B} {s'' : S}
      → m env s ≡ o
      → continue o.0 f env o.1 ≡ (ok b, s'')
      → (a : A) × (s' : S) × (m env s ≡ (ok a, s')) × (f a env s' ≡ (ok b, s''))
  unfolding continue
  bind_cases (ok a, s') h k = (a, s', h, k)
  bind_cases (err e, s') h k = cc

  -- A block that returns has returned from its first step.
  pub bind_inv :
      {b : B} {s'' : S}
      → (m >>= f) env s ≡ (ok b, s'')
      → (a : A) × (s' : S) × (m env s ≡ (ok a, s')) × (f a env s' ≡ (ok b, s''))
  unfolding ◌>>=◌
  bind_inv h = bind_cases (m env s) refl h

module _ {S B : Type 0} (e : AppError) (f : Unit {0} → Action S B) (env : Env) (s : S) where
  pub passes : {b : Bool} → b ≡ false → (throw_if b e >>= f) env s ≡ f tt env s
  unfolding throw_if ◌>>=◌
  passes h = rw h

  pub throws : {b : Bool} → b ≡ true → (throw_if b e >>= f) env s ≡ (err e, s)
  unfolding throw_if ◌>>=◌
  throws h = rw h
