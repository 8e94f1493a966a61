-- ===== src/Request/Updates.antt =====
-- What a guarded update of a request does to a property of the state.
use pstu_hackathon.Base.{ℕ, ◌≡◌, refl, Bool, true, false, Option, none, some, if◌then◌else◌}
use pstu_hackathon.Base.Table.{modify}
use pstu_hackathon.Platform.Schema.{MoneyRequest}
use pstu_hackathon.Platform.Action.{State, Result, ok, err}
use pstu_hackathon.Request.Repo.{update_guarded, row_count, request_key}

abbrev pub with_update : (MoneyRequest → MoneyRequest) → ℕ → State → State
with_update f id s = record s {
  db = record s.db { money_requests = modify request_key id f s.db.money_requests };
}

module _ (P : State → Type 0) where
  -- one of two states
  pub chosen :
      {A : Type 0} (b : Bool) (o p : Result A) (s u : State)
      → (b ≡ true → P s)
      → P u
      → P (if◌then◌else◌ {A = Result A × State} b (o, s) (p, u)).1
  chosen true o p s u x y = x refl
  chosen false o p s u x y = y

  -- The state is as it was, unless the row is there and the guard holds of it.
  pub update_guarded-kept :
      (g : MoneyRequest → Bool) (f : MoneyRequest → MoneyRequest) (id : ℕ) (o : Option MoneyRequest)
      (s : State)
      → ((r : MoneyRequest) → o ≡ some r → g r ≡ true → P (with_update f id s))
      → P s
      → P (update_guarded g f id o s).1
  update_guarded-kept g f id none s k h = h
  update_guarded-kept g f id (some r) s k h = chosen (g r) _ _ _ s (k r refl) h

  pub row_count-kept : (o : Result (Option MoneyRequest) × State) → P o.1 → P (row_count o).1
  row_count-kept (ok none, s) h = h
  row_count-kept (ok (some r), s) h = h
  row_count-kept (err e, s) h = h
