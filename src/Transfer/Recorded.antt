-- ===== src/Transfer/Recorded.antt =====
-- A call that returns has left its answer beside its key.
use pstu_hackathon.Base.{
  ℕ, ◌≡◌, refl, subst, sym, ◌∙◌, arith, false, Option, none, some, [], ◌==◌, ==_self, inl, inr,
  Bool-cases,
}
use pstu_hackathon.Base.Table.{first_where-modify}
use pstu_hackathon.Platform.Schema.{KeyState}
use pstu_hackathon.Platform.Database.{Body, IdempotencyKey}
use pstu_hackathon.Platform.Action.{Env, State, Result, ok, err, Tx, pure, throw, continue, ◌>>=◌}
use pstu_hackathon.Platform.Action.Keeps.{Keeps}
use pstu_hackathon.Platform.Action.Yields.{After, Yields, ask-Yields, bind-Yields}
use pstu_hackathon.Platform.Transaction.{World, Handler, begin, commit, with_transaction}
use pstu_hackathon.Platform.Transaction.Attempts.{Ended, with_transaction-Ended}
use pstu_hackathon.Platform.Idempotency.{
  ClaimInput, find_key, key_key, in_scope, new_key, complete_with, claim_found, existing_claim,
  answer, claim_idempotency_key, complete_idempotency_key,
}
use pstu_hackathon.Platform.Canonical.{Json, hash_request}
use pstu_hackathon.App.Keys.{Holds, Other, Holds-Steady}
use pstu_hackathon.Ledger.Steady.{Steady}
use pstu_hackathon.Transfer.{
  CreateTransferInput, Outcome, transfer_claimed, on_claim, idempotently, endpoint, send_money,
}
use pstu_hackathon.Transfer.Steady.{db-run_hooks, transfer_rules, announce-Keeps}

-- The key that a call with this outcome has completed.
abbrev pub key_for : ClaimInput → ℕ → ℕ → Outcome → IdempotencyKey
key_for input now id o = complete_with o.status o.body (new_key input id now)

-- An outcome that is not a replay is stored beside the key.
abbrev pub Recorded : ClaimInput → ℕ → Outcome → State → Type 0
Recorded input now o s =
    o.replayed ≡ false → (id : ℕ) × Holds input.user_id input.key (key_for input now id o) s

module _ (input : ClaimInput) where
  completing :
      (env : Env) (id status : ℕ) (body : Body)
      → Yields env
          (Holds input.user_id input.key (new_key input id env.now))
          (Recorded input env.now)
          (complete_idempotency_key id status body >>= λ u.
            pure (record { status = status; body = body; replayed = false }))
  unfolding complete_idempotency_key ◌>>=◌ pure continue
  completing env id status body = record {
    at = λ s h e. (
      id,
      record {
        found =
            first_where-modify key_key (in_scope input.user_id input.key) id
              (complete_with status body) s.db.idempotency_keys (λ j. refl) h.found
            ∙ rw (==_self id) refl;
        given = h.given;
      },
    );
  }

  answered :
      (env : Env) (work : ℕ → Tx Outcome) (s : State) (st : KeyState) (x : Option ℕ)
      (b : Option Body)
      → After (Recorded input env.now) (continue (answer st x b) (on_claim work) env s)
  unfolding answer continue on_claim pure throw
  answered env work s KeyState.completed (some status) (some body) = λ e. cc
  answered env work s KeyState.completed (some status) none = tt
  answered env work s KeyState.completed none b = tt
  answered env work s KeyState.in_progress x b = tt

  claimed-Recorded :
      (env : Env) (work : ℕ → Tx Outcome) (s : State) (o : Option IdempotencyKey)
      → ((id : ℕ)
          → Yields env
              (Holds input.user_id input.key (new_key input id env.now))
              (Recorded input env.now)
              (work id))
      → After (Recorded input env.now) (
          continue
            (claim_found input env.now o s).0
            (on_claim work)
            env
            (claim_found input env.now o s).1)
  unfolding claim_found existing_claim continue on_claim throw
  claimed-Recorded env work s none k =
      (k s.db.next_id).at _
        (record { found = rw (==_self input.user_id, ==_self input.key) refl; given = omega arith })
  claimed-Recorded env work s (some j) k =
      elim (Bool-cases (j.request_hash == input.request_hash)) [
        | inl same ↦ rw same (answered env work s j.state j.response_status j.response_body)
        | inr other ↦ rw other tt
      ]

idempotently-Recorded :
    (env : Env) (user key hash : ℕ) (work : ℕ → Tx Outcome)
    → (let input : ClaimInput = record { user_id = user; key = key; request_hash = hash } in
        ((id : ℕ)
          → Yields env
              (Holds user key (new_key input id env.now))
              (Recorded input env.now)
              (work id))
        → Yields env (λ s. Unit) (Recorded input env.now) (idempotently user key hash work))
unfolding idempotently claim_idempotency_key ◌>>=◌
idempotently-Recorded env user key hash work k = record {
  at = λ s h.
      claimed-Recorded (record { user_id = user; key = key; request_hash = hash }) env work s
        (find_key user key s.db.idempotency_keys) k;
}

module _ (env : Env) (sender key : ℕ) (input : CreateTransferInput) (raw : Json) where
  abbrev pub claim_of : ClaimInput
  claim_of = record { user_id = sender; key = key; request_hash = hash_request env endpoint raw }

  steady :
      (id : ℕ)
      → Steady
          (Holds sender key (new_key claim_of id env.now))
          (Other sender key (new_key claim_of id env.now))
  steady id = Holds-Steady sender key (new_key claim_of id env.now)

  transfer_claimed-Recorded :
      (id : ℕ)
      → Yields env
          (Holds sender key (new_key claim_of id env.now))
          (Recorded claim_of env.now)
          (transfer_claimed sender input id)
  unfolding transfer_claimed
  transfer_claimed-Recorded id =
      let b = steady id in
      let last = completing claim_of env id in
      search (transfer_rules, announce-Keeps, ask-Yields, bind-Yields, last) depth 40

  returned-Recorded :
      (w : World) (o : Result Outcome × World) (fn : Tx Outcome)
      → Yields env (λ s. Unit) (Recorded claim_of env.now) fn
      → Ended fn env w o
      → After (λ a w'. Recorded claim_of env.now a (begin w')) o
  unfolding commit
  returned-Recorded w (err e, w') fn k how = tt
  returned-Recorded w (ok a, w') fn k (s, ran, e) = λ fresh.
      let (id, holds) = (subst (After (Recorded claim_of env.now)) ran (k.at (begin w) tt)) fresh in
      (
        id,
        subst (λ v. Holds sender key (key_for claim_of env.now id a) (begin v)) (sym e)
            (subst
              (λ db.
                Holds sender key (key_for claim_of env.now id a) (record { db = db; hooks = [] }))
              (sym (db-run_hooks env s.hooks (record w { db = s.db })))
              (record { found = holds.found; given = holds.given })),
      )

  with_transaction-Recorded :
      (fn : Tx Outcome)
      → Yields env (λ s. Unit) (Recorded claim_of env.now) fn
      → Yields env (λ w. Unit) (λ a w. Recorded claim_of env.now a (begin w)) (with_transaction fn)
  with_transaction-Recorded fn k = record {
    at = λ w h.
        returned-Recorded w (with_transaction fn env w) fn k (with_transaction-Ended fn env w);
  }

  nothing-Keeps : {A : Type 0} (m : Handler A) → Keeps (λ w. Unit) m
  nothing-Keeps m = record { at = λ e w h. tt }

  -- What the transaction of `sendMoney` returns, unless it is a replay, is stored beside the key.
  pub work-Recorded :
      Yields env
        (λ s. Unit)
        (Recorded claim_of env.now)
        (idempotently sender key (hash_request env endpoint raw) (transfer_claimed sender input))
  work-Recorded =
      idempotently-Recorded env sender key (hash_request env endpoint raw)
        (transfer_claimed sender input) transfer_claimed-Recorded

  -- What `sendMoney` returns, unless it is a replay, is stored beside the key.
  pub send_money-Recorded :
      Yields env
        (λ w. Unit)
        (λ a w. Recorded claim_of env.now a (begin w))
        (send_money sender key input raw)
  unfolding send_money
  send_money-Recorded =
      let sent = with_transaction-Recorded _ work-Recorded in
      search (ask-Yields, bind-Yields, nothing-Keeps, sent) depth 12
