-- ===== src/App/Replay/Lost.antt =====
-- A payment whose COMMIT is carried out, but not answered, and that is sent again with the same key.
use pstu_hackathon.Base.{ℕ, ◌≡◌, subst, ap, ◌∙◌, false}
use pstu_hackathon.Base.Int.{pos, ltb_ℤ}
use pstu_hackathon.Platform.Errors.{fault}
use pstu_hackathon.Platform.Action.{
  Env, unanswered, State, Result, ok, err, Tx, ◌>>=◌, ask, continue,
}
use pstu_hackathon.Platform.Action.Yields.{After}
use pstu_hackathon.Platform.Action.Steps.{bind_ok, passes}
use pstu_hackathon.Platform.Transaction.{World, begin, with_transaction}
use pstu_hackathon.Platform.Transaction.Attempts.{IsPunctual, InTime, with_transaction_lost}
use pstu_hackathon.Platform.Canonical.{Json, hash_request}
use pstu_hackathon.Auth.Pin.{verify_pin}
use pstu_hackathon.Transfer.{
  CreateTransferInput, Outcome, transfer_claimed, idempotently, endpoint, send_money,
}
use pstu_hackathon.Transfer.Recorded.{Recorded, claim_of, work-Recorded}
use pstu_hackathon.App.{Reaches}
use pstu_hackathon.App.Replay.{again, stored_replayed}

module _ (sender key : ℕ) (input : CreateTransferInput) (raw : Json) where
  -- the transaction of `sendMoney`
  abbrev pub work_of : Env → Tx Outcome
  work_of env =
      idempotently sender key (hash_request env endpoint raw) (transfer_claimed sender input)

  -- Where the PIN of a payment within the limits is accepted, its transaction makes the payment, and the
  -- COMMIT of that is carried out but the connection lost before its answer: `sendMoney` throws. After any
  -- further calls of anybody, the same call with the same key and request hash, under the same
  -- configuration, with a PIN that is accepted and a connection that comes back in time, returns the
  -- answer that was lost, marked as a replay, and leaves the world as the check of the PIN has left it: the
  -- money has moved once.
  pub lost_payment_resolved :
      (env later : Env) (w w' v v' : World) (o : Outcome) (s : State)
      → ltb_ℤ input.amount_minor (pos env.config.min_transfer_minor) ≡ false
      → ltb_ℤ (pos env.config.max_transfer_minor) input.amount_minor ≡ false
      → verify_pin sender input.pin env w ≡ (ok tt, w')
      → work_of env env (begin w') ≡ (ok o, s)
      → o.replayed ≡ false
      → IsPunctual env 0
      → env.fate 0 ≡ unanswered
      → Reaches (send_money sender key input raw env w).1 v
      → hash_request later endpoint raw ≡ hash_request env endpoint raw
      → later.config ≡ env.config
      → verify_pin sender input.pin later v ≡ (ok tt, v')
      → InTime later 0
      → ((send_money sender key input raw env w).0 ≡ err fault)
        × (send_money sender key input raw later v ≡ (ok (again sender key input raw o), v'))
  unfolding send_money ◌>>=◌ ask continue
  lost_payment_resolved env later w w' v v' o s above below pin ran first punctual gone reached same
        limits pin_again time =
      let (id, stored) =
        (subst (After (Recorded (claim_of env sender key input raw) env.now)) ran
            ((work-Recorded env sender key input raw).at (begin w') tt))
          first in
      (
        ap (λ (r : Result Outcome × World). r.0) lost,
        stored_replayed sender key input raw env later (record w' { db = s.db }) v v' o id above
            below (record { found = stored.found; given = stored.given })
            (subst (λ (r : Result Outcome × World). Reaches r.1 v) lost reached) same limits
            pin_again time,
      )
    where
      lost : send_money sender key input raw env w ≡ (err fault, record w' { db = s.db })
      lost =
          passes _ _ env w above
          ∙ passes _ _ env w below
          ∙ bind_ok (verify_pin sender input.pin) (λ u. with_transaction (work_of env)) {env = env}
              {s = w} pin
          ∙ with_transaction_lost (work_of env) env w' o s punctual gone ran
