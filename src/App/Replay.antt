-- ===== src/App/Replay.antt =====
-- A payment that is sent again, with the same key, is not made again.
pub mod Lost
use pstu_hackathon.Base.{
  ℕ, arith, inl, inr, Bool-cases, ◌≡◌, refl, subst, sym, ◌∙◌, true, false, List, ==_self,
}
use pstu_hackathon.Base.Int.{pos, ltb_ℤ}
use pstu_hackathon.Base.Table.{modify}
use pstu_hackathon.Platform.Errors.{AppError}
use pstu_hackathon.Platform.Schema.{Transfer, MoneyRequest}
use pstu_hackathon.Platform.Database.{IdempotencyKey}
use pstu_hackathon.Platform.Action.{Env, State, Result, ok, err, Tx, ◌>>=◌, ask, continue, pure}
use pstu_hackathon.Platform.Action.Keeps.{Keeps}
use pstu_hackathon.Platform.Action.Yields.{After}
use pstu_hackathon.Platform.Action.Steps.{bind_ok, passes, throws}
use pstu_hackathon.Platform.Transaction.{World, begin, commit, run_hooks, with_transaction}
use pstu_hackathon.Platform.Transaction.Attempts.{InTime, with_transaction_ok}
use pstu_hackathon.Platform.Idempotency.{
  replay, claim_found, claim_idempotency_key, existing_claim, answer,
}
use pstu_hackathon.Platform.Canonical.{Json, hash_request}
use pstu_hackathon.Auth.Pin.{verify_pin}
use pstu_hackathon.Ledger.{transfer_key}
use pstu_hackathon.Transfer.{
  CreateTransferInput, Outcome, transfer_claimed, on_claim, idempotently, endpoint, send_money,
}
use pstu_hackathon.Transfer.Steady.{OnWorld, verify_pin-Keeps}
use pstu_hackathon.Transfer.Recorded.{Recorded, key_for, claim_of, send_money-Recorded}
use pstu_hackathon.Reversal.{mark_reversed, claim_reversal}
use pstu_hackathon.Request.Updates.{chosen}
use pstu_hackathon.Request.Steady.{RequestSteady}
use pstu_hackathon.Split.Steady.{unseen}
use pstu_hackathon.Schedule.Aside.{apart}
use pstu_hackathon.Request.Aside
use pstu_hackathon.Dispatcher.Steady.{unseen_outbox}
use pstu_hackathon.Auth.Session.Steady.{unseen_tokens}
use pstu_hackathon.App.{Reaches}
use pstu_hackathon.App.Keys.{Holds, Other, Holds-Steady}
use pstu_hackathon.App.Steady.{AppSteady, Reaches-OnWorld}

module _ (user key : ℕ) (k : IdempotencyKey) where
  same_keys :
      (s : State) (ts : List Transfer) (rs : List MoneyRequest)
      → Holds user key k s
      → Holds user key k (record s { db = record s.db { transfers = ts; money_requests = rs } })
  same_keys s ts rs h = record { found = h.found; given = h.given }

  requests : RequestSteady (Holds user key k)
  requests = Aside.apart (record {
    requests = λ s n rs le h. record { found = h.found; given = omega (arith, h.given, le) };
  })

  marking : (t : Transfer) → Keeps (Holds user key k) (claim_reversal t)
  unfolding claim_reversal
  marking t = record {
    at = λ env s h.
        chosen (Holds user key k) _ _ _ _ s
          (λ e.
            same_keys s (modify transfer_key t.id mark_reversed s.db.transfers) s.db.money_requests
              h)
          h;
  }

  Holds-AppSteady :
      AppSteady (Holds user key k) (Other user key k) (λ id. Unit) (λ id. Unit) (λ e. Unit)
  Holds-AppSteady = record {
    shared = Holds-Steady user key k;
    marking = marking;
    requests = requests;
    sessions =
        unseen_tokens
          (λ s n ts le h. record { found = h.found; given = omega (arith, h.given, le) });
    outbox = unseen_outbox (λ s es ns h. record { found = h.found; given = h.given });
    splits = unseen (λ s n bs le h. record { found = h.found; given = omega (arith, h.given, le) });
    schedules = apart (record {
      schedules = λ s n ss os le h. record { found = h.found; given = omega (arith, h.given, le) };
    });
  }

module _ (sender key : ℕ) (input : CreateTransferInput) (raw : Json) where
  -- The outcome of the replay.
  abbrev pub again : Outcome → Outcome
  again o = record o { replayed = true }

  answered_again :
      (env later : Env) (o : Outcome) (id : ℕ) (hash : ℕ) (s : State)
      → hash ≡ hash_request env endpoint raw
      → Holds sender key (key_for (claim_of env sender key input raw) env.now id o) s
      → (work : ℕ → Tx Outcome) → idempotently sender key hash work later s ≡ (ok (again o), s)
  unfolding idempotently claim_idempotency_key claim_found existing_claim answer on_claim pure
  answered_again env later o id hash s e h work =
      bind_ok _ _ {a = replay o.status o.body}
        (rw (h.found, e, ==_self (hash_request env endpoint raw)) refl)

  within :
      (env : Env) (w w' : World) (o : Outcome)
      → send_money sender key input raw env w ≡ (ok o, w')
      → (ltb_ℤ input.amount_minor (pos env.config.min_transfer_minor) ≡ false)
        × (ltb_ℤ (pos env.config.max_transfer_minor) input.amount_minor ≡ false)
  unfolding send_money ◌>>=◌ ask continue
  within env w w' o h =
      elim (Bool-cases (ltb_ℤ input.amount_minor (pos env.config.min_transfer_minor))) [
        | inl low ↦ absurd (not_both (sym (throws _ _ env w low) ∙ h))
        | inr least ↦
            elim (Bool-cases (ltb_ℤ (pos env.config.max_transfer_minor) input.amount_minor)) [
              | inl high ↦
                  absurd (not_both (sym (passes _ _ env w least ∙ throws _ _ env w high) ∙ h))
              | inr most ↦ (least, most)
            ]
      ]
    where
      not_both :
          {e : AppError} {x y : World} → Path (Result Outcome × World) (err e, x) (ok o, y) → ⊥
      not_both q = cc

  -- A request within the limits whose answer is stored, and which is sent again after any further calls.
  pub stored_replayed :
      (env later : Env) (w v v' : World) (o : Outcome) (id : ℕ)
      → ltb_ℤ input.amount_minor (pos env.config.min_transfer_minor) ≡ false
      → ltb_ℤ (pos env.config.max_transfer_minor) input.amount_minor ≡ false
      → OnWorld (Holds sender key (key_for (claim_of env sender key input raw) env.now id o)) w
      → Reaches w v
      → hash_request later endpoint raw ≡ hash_request env endpoint raw
      → later.config ≡ env.config
      → verify_pin sender input.pin later v ≡ (ok tt, v')
      → InTime later 0
      → send_money sender key input raw later v ≡ (ok (again o), v')
  unfolding send_money ◌>>=◌ ask continue commit run_hooks
  stored_replayed env later w v v' o id above below stored reached same limits pin time =
      passes _ _ later v least
      ∙ passes _ _ later v most
      ∙ bind_ok (verify_pin sender input.pin) (λ u. with_transaction work) {env = later} {s = v} pin
      ∙ with_transaction_ok work later v' (again o) (begin v') time (
          answered_again env later o id (hash_request later endpoint raw) (begin v') same
            stored_still (transfer_claimed sender input))
    where
      work : Tx Outcome
      work =
          idempotently sender key (hash_request later endpoint raw) (transfer_claimed sender input)

      least : ltb_ℤ input.amount_minor (pos later.config.min_transfer_minor) ≡ false
      least = rw limits above

      most : ltb_ℤ (pos later.config.max_transfer_minor) input.amount_minor ≡ false
      most = rw limits below

      kept : OnWorld (Holds sender key (key_for (claim_of env sender key input raw) env.now id o)) v
      kept = Reaches-OnWorld (Holds-AppSteady sender key _) reached stored

      stored_still :
          OnWorld (Holds sender key (key_for (claim_of env sender key input raw) env.now id o)) v'
      stored_still =
          subst
            (λ (q : Result (Unit {0}) × World).
              OnWorld (Holds sender key (key_for (claim_of env sender key input raw) env.now id o))
                q.1)
            pin ((verify_pin-Keeps (Holds-Steady sender key _) sender input.pin).at later v kept)

  -- Where `sendMoney` has returned an answer that is not a replay, and after any further calls of
  -- anybody, the same call with the same key and request hash, under the same configuration, with
  -- a PIN that is accepted and a connection that comes back in time, returns the same status and
  -- body, marked as a replay, and leaves the world as the check of the PIN has left it.
  pub send_money_replayed :
      (env later : Env) (w w' v v' : World) (o : Outcome)
      → send_money sender key input raw env w ≡ (ok o, w')
      → o.replayed ≡ false
      → Reaches w' v
      → hash_request later endpoint raw ≡ hash_request env endpoint raw
      → later.config ≡ env.config
      → verify_pin sender input.pin later v ≡ (ok tt, v')
      → InTime later 0
      → send_money sender key input raw later v ≡ (ok (again o), v')
  send_money_replayed env later w w' v v' o paid first reached same limits pin time =
      let (above, below) = within env w w' o paid in
      let (id, stored) =
        (subst (After (λ a x. Recorded (claim_of env sender key input raw) env.now a (begin x)))
            paid ((send_money-Recorded env sender key input raw).at w tt))
          first in
      stored_replayed env later w' v v' o id above below stored reached same limits pin time
