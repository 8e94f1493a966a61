-- ===== src/App/Keys.antt =====
-- A key that has been completed answers the same for ever.
use pstu_hackathon.Base.{
  ℕ, ◌<◌, ◌≡◌, ◌≢◌, refl, sym, arith, Option, none, some, List, ◌∷◌, ◌==◌, ==_ne, Bool-cases, inl,
  inr, ◌∙◌,
}
use pstu_hackathon.Base.Table.{first_where-modify, modify}
use pstu_hackathon.Platform.Schema.{KeyState}
use pstu_hackathon.Platform.Database.{Body, IdempotencyKey}
use pstu_hackathon.Platform.Action.{State}
use pstu_hackathon.Platform.Outbox.{enqueue_event, insert_audit_log}
use pstu_hackathon.Platform.Idempotency.{
  ClaimInput, find_key, in_scope, key_key, new_key, complete_with, claim_found, existing_claim,
  answer, claim_idempotency_key, complete_idempotency_key,
}
use pstu_hackathon.Auth.Pin.{count_failed_attempt, forget_failures}
use pstu_hackathon.Ledger.{insert_movement}
use pstu_hackathon.Ledger.Aside.{Aside, posting-Keeps}
use pstu_hackathon.Ledger.Steady.{Steady, Creates}

module _ (user key : ℕ) (k : IdempotencyKey) where
  -- The user's key is in this row, whose identifier has been given out.
  pub record Holds (s : State) : Type 0 where
    pub found : find_key user key s.db.idempotency_keys ≡ some k
    pub given : k.id < s.db.next_id

  abbrev pub Other : ℕ → Type 0
  Other id = id ≢ k.id

  put_in_front :
      (input : ClaimInput) (id now : ℕ) (ks : List IdempotencyKey)
      → find_key input.user_id input.key ks ≡ none
      → find_key user key ks ≡ some k
      → find_key user key (new_key input id now ∷ ks) ≡ some k
  put_in_front input id now ks free h = ground (arith, free, h)

  claim_found-Holds :
      (input : ClaimInput) (now : ℕ) (s : State) (o : Option IdempotencyKey)
      → find_key input.user_id input.key s.db.idempotency_keys ≡ o
      → Holds s
      → Holds (claim_found input now o s).1
  unfolding claim_found
  claim_found-Holds input now s (some j) e h = h
  claim_found-Holds input now s none e h = record {
    found = put_in_front input s.db.next_id now s.db.idempotency_keys e h.found;
    given = omega (arith, h.given);
  }

  answer-Creates : (st : KeyState) (x : Option ℕ) (b : Option Body) → Creates Other (answer st x b)
  unfolding answer
  answer-Creates KeyState.completed (some status) (some body) = tt
  answer-Creates KeyState.completed (some status) none = tt
  answer-Creates KeyState.completed none body = tt
  answer-Creates KeyState.in_progress status body = tt

  claim_found-Creates :
      (input : ClaimInput) (now : ℕ) (s : State) (o : Option IdempotencyKey)
      → Holds s
      → Creates Other (claim_found input now o s).0
  unfolding claim_found existing_claim
  claim_found-Creates input now s none h = λ e. omega (arith, e, h.given)
  claim_found-Creates input now s (some j) h =
      elim (Bool-cases (j.request_hash == input.request_hash)) [
        | inl same ↦ rw same (answer-Creates j.state j.response_status j.response_body)
        | inr other ↦ rw other tt
      ]

  Holds-Aside : Aside Holds
  unfolding insert_movement
  Holds-Aside = record {
    hooks = λ hs s h. record { found = h.found; given = h.given };
    accounts = λ as' s h. record { found = h.found; given = h.given };
    movement = λ c ref x y. record {
      at = λ env s h. record { found = h.found; given = omega (arith, h.given) };
    };
  }

  completed_still :
      (id status : ℕ) (body : Body) (ks : List IdempotencyKey)
      → Other id
      → find_key user key ks ≡ some k
      → find_key user key (modify key_key id (complete_with status body) ks) ≡ some k
  completed_still id status body ks other h =
      first_where-modify key_key (in_scope user key) id (complete_with status body) ks (λ j. refl) h
      ∙ rw (==_ne k.id id (λ e. other (sym e))) refl

  pub Holds-Steady : Steady Holds Other
  unfolding enqueue_event insert_audit_log claim_idempotency_key complete_idempotency_key
      count_failed_attempt forget_failures
  Holds-Steady = record {
    hooks = λ hs s h. record { found = h.found; given = h.given };
    event =
        λ e. record { at = λ env s h. record { found = h.found; given = omega (arith, h.given) } };
    audit = λ a. record { at = λ env s h. record { found = h.found; given = h.given } };
    claim = λ input. record {
      at = λ env s h.
          claim_found-Holds input env.now s (find_key input.user_id input.key s.db.idempotency_keys)
            refl h;
    };
    creation = λ input env s h.
        claim_found-Creates input env.now s (find_key input.user_id input.key s.db.idempotency_keys)
          h;
    completion = λ id status body other. record {
      at = λ env s h. record {
        found = completed_still id status body s.db.idempotency_keys other h.found;
        given = h.given;
      };
    };
    posting = posting-Keeps Holds-Aside;
    failed = λ id. record { at = λ env s h. record { found = h.found; given = h.given } };
    forgotten = λ id. record { at = λ env s h. record { found = h.found; given = h.given } };
  }
