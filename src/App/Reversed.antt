-- ===== src/App/Reversed.antt =====
-- A reversal is final.
use pstu_hackathon.Base.{
  ℕ, ◌<◌, ◌≡◌, refl, sym, ◌∙◌, arith, true, some, List, ◌==◌, ==_ne, ==_eq, inl, inr, Bool-cases,
}
use pstu_hackathon.Base.Table.{find, modify, find-modify}
use pstu_hackathon.Platform.Schema.{Transfer, TransferStatus, MoneyRequest, Occurrence}
use pstu_hackathon.Platform.Action.Keeps.{Keeps}
use pstu_hackathon.Platform.Transaction.{World}
use pstu_hackathon.Ledger.{transfer_key}
use pstu_hackathon.Reversal.{mark_reversed, still_completed, claim_reversal}
use pstu_hackathon.Request.Updates.{chosen}
use pstu_hackathon.Request.Steady.{RequestSteady}
use pstu_hackathon.Schedule.Steady.{ScheduleSteady}
use pstu_hackathon.Schedule.Aside.{apart}
use pstu_hackathon.Request.Aside
use pstu_hackathon.Dispatcher.Steady.{unseen_outbox}
use pstu_hackathon.Auth.Session.Steady.{unseen_tokens}
use pstu_hackathon.App.{Reaches}
use pstu_hackathon.App.Steady.{Reaches-OnWorld}
use pstu_hackathon.App.Tables.{Grows, OnTables, OnTables-Steady, OnTables-SplitSteady}

module _ (t : Transfer) where
  -- The transfer's row is `t`, and its identifier has been given out.
  abbrev IsRow : ℕ → List Transfer → List MoneyRequest → List Occurrence → Type 0
  IsRow n ts rs os = (find transfer_key t.id ts ≡ some t) × (t.id < n)

  grows : Grows IsRow
  grows = record {
    later = λ le h. (h.0, omega (arith, h.1, le));
    posted = λ {n} {ts} {rs} c reference now h.
        (rw (==_ne n t.id (λ e. omega (arith, h.1, e))) h.0, omega (arith, h.1));
  }

  refuses :
      (created_at : ℕ)
      → t.status ≡ TransferStatus.reversed
      → still_completed created_at (some t) ≡ true
      → ⊥
  refuses created_at final h = ground (arith, final, h)

  other_row :
      (u : Transfer) (ts : List Transfer)
      → t.status ≡ TransferStatus.reversed
      → find transfer_key t.id ts ≡ some t
      → still_completed u.created_at (find transfer_key u.id ts) ≡ true
      → find transfer_key t.id (modify transfer_key u.id mark_reversed ts) ≡ some t
  other_row u ts final h claimed = elim (Bool-cases (t.id == u.id)) [
    | inl same ↦ absurd (refuses u.created_at final (rw (sym (==_eq t.id u.id same), h) at claimed))
    | inr other ↦
        find-modify transfer_key t.id u.id mark_reversed ts (λ x. refl) ∙ rw (other, h) refl
  ]

  marking :
      (u : Transfer)
      → t.status ≡ TransferStatus.reversed
      → Keeps (OnTables IsRow) (claim_reversal u)
  unfolding claim_reversal
  marking u final = record {
    at = λ env s h.
        chosen (OnTables IsRow) _ _ _ _ s
          (λ claimed. (other_row u s.db.transfers final h.0 claimed, h.1)) h;
  }

  requests : RequestSteady (OnTables IsRow)
  requests = Aside.apart (record { requests = λ s n rs le h. (h.0, omega (arith, h.1, le)) })

  schedules : ScheduleSteady (OnTables IsRow) (λ id. Unit)
  schedules = apart (record { schedules = λ s n ss os le h. (h.0, omega (arith, h.1, le)) })

  -- The row of a transfer that has been reversed, with an identifier that has been given out, is
  -- found unchanged after whatever calls are made.
  pub reversed_final :
      {w v : World}
      → Reaches w v
      → t.status ≡ TransferStatus.reversed
      → t.id < w.db.next_id
      → find transfer_key t.id w.db.transfers ≡ some t
      → find transfer_key t.id v.db.transfers ≡ some t
  reversed_final reached final given there =
      (Reaches-OnWorld
        (record {
          shared = OnTables-Steady grows;
          marking = λ u. marking u final;
          requests = requests;
          splits = OnTables-SplitSteady grows;
          sessions = unseen_tokens (λ s n ts le h.
              grows.later {ts = s.db.transfers} {rs = s.db.money_requests}
                {os = s.db.schedule_occurrences} le h);
          outbox = unseen_outbox (λ s es ns h. h);
          schedules = schedules;
        })
        reached (there, given)).0
