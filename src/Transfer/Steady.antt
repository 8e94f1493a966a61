-- ===== src/Transfer/Steady.antt =====
-- Sending money, and what every handler shares, keeps a steady property.
use pstu_hackathon.Base.{ℕ, ◌≡◌, refl, subst, sym, List, [], ◌∷◌, inl, inr}
use pstu_hackathon.Platform.Database.{Db}
use pstu_hackathon.Platform.Action.{
  Env, State, Hook, Result, ok, err, Tx, pure, throw, continue, ◌>>=◌,
}
use pstu_hackathon.Platform.Action.Keeps.{Keeps, keeps_rules}
use pstu_hackathon.Platform.Transaction.{
  World, commit, run_hooks, with_transaction, with_read_transaction, begin,
}
use pstu_hackathon.Platform.Transaction.Attempts.{
  Ended, with_transaction-Ended, with_read_transaction-Ended,
}
use pstu_hackathon.Platform.Idempotency.{
  ClaimInput, IdempotencyClaim, claimed, replay, mismatch, claim_idempotency_key,
}
use pstu_hackathon.Platform.Canonical.{Json}
use pstu_hackathon.Auth.Pin.{verify_pin, record_failed_attempt, clear_failed_attempts}
use pstu_hackathon.Ledger.{PostedTransfer}
use pstu_hackathon.Ledger.Steady.{Steady, Creates, steady_rules}
use pstu_hackathon.Transfer.{
  CreateTransferInput, Outcome, announce, transfer_claimed, on_claim, idempotently, send_money,
}
use pstu_hackathon.Transfer.Repo.{
  PayeeAccount, find_account_id_for_user, find_payee_by_phone, find_user_by_id, outbound_in_window,
}
use pstu_hackathon.Transfer.Velocity.{enforce_velocity}

-- the property of a committed database
abbrev pub OnWorld : (State → Type 0) → World → Type 0
OnWorld P w = P (begin w)

-- Hooks leave the database alone.
pub db-run_hooks : (env : Env) (hooks : List Hook) (w : World) → (run_hooks env hooks w).db ≡ w.db
unfolding run_hooks
db-run_hooks env [] w = refl
db-run_hooks env (Hook.publish_balance a b v ∷ hooks) w = db-run_hooks env hooks w
db-run_hooks env (Hook.track_position us l ∷ hooks) w = db-run_hooks env hooks w
db-run_hooks env (Hook.send_security_alert u r a ∷ hooks) w = db-run_hooks env hooks w

abbrev fresh : Db → State
fresh db = record { db = db; hooks = [] }

module _ {P : State → Type 0} where
  pub find_account_id_for_user-Keeps : (u : ℕ) → Keeps P (find_account_id_for_user u)
  unfolding find_account_id_for_user
  find_account_id_for_user-Keeps u = search keeps_rules

  pub find_payee_by_phone-Keeps : (p : ℕ) → Keeps P (find_payee_by_phone p)
  unfolding find_payee_by_phone
  find_payee_by_phone-Keeps p = search keeps_rules

  pub find_user_by_id-Keeps : (u : ℕ) → Keeps P (find_user_by_id u)
  unfolding find_user_by_id
  find_user_by_id-Keeps u = search keeps_rules

  pub outbound_in_window-Keeps : (a : ℕ) → Keeps P (outbound_in_window a)
  unfolding outbound_in_window
  outbound_in_window-Keeps a = record { at = λ env s h. h }

  pub enforce_velocity-Keeps : (a : ℕ) → Keeps P (enforce_velocity a)
  unfolding enforce_velocity
  enforce_velocity-Keeps a = record { at = λ env s h. h }

pub ruleset transfer_rules = (
  steady_rules, find_account_id_for_user-Keeps, find_payee_by_phone-Keeps, find_user_by_id-Keeps,
  outbound_in_window-Keeps, enforce_velocity-Keeps,
)

module _ {P : State → Type 0} {C : ℕ → Type 0} (b : Steady P C) where
  module _ {A : Type 0} (fn : Tx A) where
    -- The property holds of a database that is committed, whichever hooks have run.
    stored-OnWorld :
        Keeps P fn
        → (env : Env) (w : World) (o : Result A) (s : State) (hooks : List Hook)
        → fn env (begin w) ≡ (o, s)
        → OnWorld P w
        → OnWorld P (run_hooks env hooks (record w { db = s.db }))
    stored-OnWorld k env w o s hooks ran h =
        subst (λ db. P (fresh db)) (sym (db-run_hooks env hooks (record w { db = s.db })))
          (b.hooks [] s (subst (λ (o : Result A × State). P o.1) ran (k.at env (begin w) h)))

    Ended-OnWorld :
        Keeps P fn
        → (env : Env) (w : World) (o : Result A × World) → Ended fn env w o
        → OnWorld P w
        → OnWorld P o.1
    unfolding commit run_hooks
    Ended-OnWorld k env w (ok a, w') (s, ran, e) h =
        subst (OnWorld P) (sym e) (stored-OnWorld k env w (ok a) s s.hooks ran h)
    Ended-OnWorld k env w (err e, w') (inl same) h = subst (OnWorld P) (sym same) h
    Ended-OnWorld k env w (err e, w') (inr (a, s, ran, same)) h =
        subst (OnWorld P) (sym same) (stored-OnWorld k env w (ok a) s [] ran h)

    -- A transaction whose code keeps the property keeps it, retries and hooks included.
    pub with_transaction-Keeps : Keeps P fn → Keeps (OnWorld P) (with_transaction fn)
    with_transaction-Keeps k = record {
      at = λ env w h.
          Ended-OnWorld k env w (with_transaction fn env w) (with_transaction-Ended fn env w) h;
    }

    pub with_read_transaction-Keeps : Keeps P fn → Keeps (OnWorld P) (with_read_transaction fn)
    with_read_transaction-Keeps k = record {
      at = λ env w h.
          Ended-OnWorld k env w (with_read_transaction fn env w)
            (with_read_transaction-Ended fn env w) h;
    }

  record_failed_attempt-Keeps : (id : ℕ) → Keeps (OnWorld P) (record_failed_attempt id)
  unfolding record_failed_attempt
  record_failed_attempt-Keeps id = with_transaction-Keeps _ (b.failed id)

  clear_failed_attempts-Keeps : (id : ℕ) → Keeps (OnWorld P) (clear_failed_attempts id)
  unfolding clear_failed_attempts
  clear_failed_attempts-Keeps id = with_transaction-Keeps _ (b.forgotten id)

  pub verify_pin-Keeps : (id : ℕ) (pin : List ℕ) → Keeps (OnWorld P) (verify_pin id pin)
  unfolding verify_pin
  verify_pin-Keeps id pin =
      search (keeps_rules, record_failed_attempt-Keeps, clear_failed_attempts-Keeps) depth 24

  on_claim-Keeps :
      (work : ℕ → Tx Outcome) (o : Result IdempotencyClaim) (env : Env) (s : State)
      → ((id : ℕ) → C id → Keeps P (work id))
      → Creates C o
      → P s
      → P (continue o (on_claim work) env s).1
  unfolding on_claim continue pure throw
  on_claim-Keeps work (err e) env s k c h = h
  on_claim-Keeps work (ok mismatch) env s k c h = h
  on_claim-Keeps work (ok (replay status body)) env s k c h = h
  on_claim-Keeps work (ok (claimed id)) env s k c h = (k id c).at env s h

  -- Claiming a key first, and answering from it, keeps the property if the work does.
  pub idempotently-Keeps :
      (user key hash : ℕ) (work : ℕ → Tx Outcome)
      → ((id : ℕ) → C id → Keeps P (work id))
      → Keeps P (idempotently user key hash work)
  unfolding idempotently ◌>>=◌
  idempotently-Keeps user key hash work k = record {
    at = λ env s h.
        let input : ClaimInput = record { user_id = user; key = key; request_hash = hash } in
        on_claim-Keeps work (claim_idempotency_key input env s).0 env
          (claim_idempotency_key input env s).1 k (b.creation input env s h)
          ((b.claim input).at env s h);
  }

  pub announce-Keeps : (u : ℕ) (p : PostedTransfer) (q : PayeeAccount) → Keeps P (announce u p q)
  unfolding announce
  announce-Keeps u p q = search transfer_rules depth 24

  transfer_claimed-Keeps :
      (u : ℕ) (input : CreateTransferInput) (id : ℕ) → C id → Keeps P (transfer_claimed u input id)
  unfolding transfer_claimed
  transfer_claimed-Keeps u input id c = search (transfer_rules, announce-Keeps) depth 40

  pub send_money-Keeps :
      (u key : ℕ) (input : CreateTransferInput) (raw : Json)
      → Keeps (OnWorld P) (send_money u key input raw)
  unfolding send_money
  send_money-Keeps u key input raw =
      search
        (
          keeps_rules, verify_pin-Keeps, with_transaction-Keeps, idempotently-Keeps,
          transfer_claimed-Keeps,
        )
        depth 24
