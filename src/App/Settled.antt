-- ===== src/App/Settled.antt =====
-- An occurrence that has been settled is never run again.
pub mod Proper
pub mod Paid
pub mod Once
use pstu_hackathon.Base.{
  subst, ℕ, ◌<◌, ◌≡◌, ◌≢◌, refl, sym, ◌∙◌, arith, true, false, Option, none, some, List, [], ◌∷◌,
  ◌==◌, ==_ne, ==_eq, inl, inr, Bool, Bool-cases,
}
use pstu_hackathon.Base.Table.{
  absent, first_where-All, find, first_where, first_where-modify, modify, All, All-imp, All-modify,
  IsKeyed,
}
use pstu_hackathon.Platform.Schema.{Schedule, paid, Transfer, MoneyRequest, Occurrence, Schedule}
use pstu_hackathon.Platform.Action.Keeps.{Keeps}
use pstu_hackathon.Platform.Transaction.{World}
use pstu_hackathon.Platform.Action.{Env, State}
use pstu_hackathon.Schedule.Repo.{
  schedule_key, insert_schedule, update_schedule, advance_schedule, defer_schedule, Change,
  transition_found, transition_schedule,
}
use pstu_hackathon.Reversal.{claim_reversal}
use pstu_hackathon.Request.Aside
use pstu_hackathon.Request.Updates.{chosen}
use pstu_hackathon.Request.Steady.{RequestSteady}
use pstu_hackathon.Schedule.Steady.{ScheduleSteady, Claims}
use pstu_hackathon.App.{Option, Change, Env, Reaches}
use pstu_hackathon.Auth.Session.Steady.{unseen_tokens}
use pstu_hackathon.App.Steady.{Reaches-OnWorld}
use pstu_hackathon.Dispatcher.Steady.{unseen_outbox}
use pstu_hackathon.App.Tables.{Grows, OnTables, OnTables-Steady, OnTables-SplitSteady}
use pstu_hackathon.Schedule.Occurrences.{
  settled_status, claim_occurrence_found, Settlement, is_open, is_occurrence,
  claim_occurrence_found, claim_occurrence, Settlement, settled_status, settle_occurrence,
  find_occurrence, occurrence_key, new_occurrence, try_again, settle,
}

module _ (o : Occurrence) (over : is_open o.status ≡ false) where
  -- no open occurrence has the identifier of `o`
  abbrev IsElsewhere : Occurrence → Type 0
  IsElsewhere x = is_open x.status ≡ true → x.id ≢ o.id

  -- The occurrence's row is `o`, and its identifier has been given out.
  abbrev IsRow : ℕ → List Transfer → List MoneyRequest → List Occurrence → Type 0
  IsRow n ts rs os =
      (find_occurrence o.schedule_id o.due_at os ≡ some o) × (o.id < n) × All IsElsewhere os

  grows : Grows IsRow
  grows = record {
    later = λ le h. (h.0, omega (arith, h.1, le), h.2);
    posted = λ c reference now h. (h.0, omega (arith, h.1), h.2);
  }

  -- an open occurrence that a look-up finds
  open_elsewhere :
      (schedule due : ℕ) (x : Occurrence) (os : List Occurrence)
      → All IsElsewhere os
      → find_occurrence schedule due os ≡ some x
      → is_open x.status ≡ true
      → x.id ≢ o.id
  open_elsewhere schedule due x os h f =
      first_where-All IsElsewhere (is_occurrence schedule due) os h f

  -- In a keyed table the row of `o` is the only one with its identifier.
  elsewhere :
      (os : List Occurrence)
      → IsKeyed occurrence_key os
      → find_occurrence o.schedule_id o.due_at os ≡ some o
      → All IsElsewhere os
  elsewhere [] k h = tt
  elsewhere (x ∷ xs) (new, keyed) h = elim (Bool-cases (is_occurrence o.schedule_id o.due_at x)) [
    | inl hit ↦
        let same = some_inj {x = x} {y = o} (rw hit at h) in
        (
          (λ p e. not_open same p),
          All-imp xs (λ y ne p. ne)
              (absent occurrence_key o.id xs
                (subst (λ q. find occurrence_key q.id xs ≡ none) same new)),
        )
    | inr miss ↦
        let there = rw miss at h in
        (
          (λ p e.
              first_where-All (λ y. y.id ≢ x.id) (is_occurrence o.schedule_id o.due_at) xs
                (absent occurrence_key x.id xs new) there (sym e)),
          elsewhere xs keyed there,
        )
  ]
    where
      some_inj : {x y : Occurrence} → some x ≡ some y → x ≡ y
      some_inj k = cc

      not_open : x ≡ o → is_open x.status ≡ true → ⊥
      not_open k p = ground (arith, k, over, p)

  -- an update of another occurrence that leaves its schedule and its instant alone
  updated :
      (f : Occurrence → Occurrence) (id n : ℕ) (ts : List Transfer) (rs : List MoneyRequest)
      (os : List Occurrence)
      → ((x : Occurrence)
          → is_occurrence o.schedule_id o.due_at (f x) ≡ is_occurrence o.schedule_id o.due_at x)
      → ((x : Occurrence) → IsElsewhere x → IsElsewhere (f x))
      → id ≢ o.id
      → IsRow n ts rs os
      → IsRow n ts rs (modify occurrence_key id f os)
  updated f id n ts rs os same still other h = (
    first_where-modify occurrence_key (is_occurrence o.schedule_id o.due_at) id f os same h.0
        ∙ rw (==_ne o.id id (λ e. other (sym e))) refl,
    h.1,
    All-modify occurrence_key id f os still h.2,
  )

  put_in_front :
      (schedule due n : ℕ) (os : List Occurrence)
      → find_occurrence schedule due os ≡ none
      → find_occurrence o.schedule_id o.due_at os ≡ some o
      → find_occurrence o.schedule_id o.due_at (new_occurrence n schedule due ∷ os) ≡ some o
  put_in_front schedule due n os free h = ground (arith, free, h)

  abbrev Other : ℕ → Type 0
  Other id = id ≢ o.id

  claimed :
      (schedule due : ℕ) (s : State) (x : Option Occurrence)
      → find_occurrence schedule due s.db.schedule_occurrences ≡ x
      → OnTables IsRow s
      → OnTables IsRow (claim_occurrence_found schedule due x s).1
  unfolding claim_occurrence_found
  claimed schedule due s none e h = (
    put_in_front schedule due s.db.next_id s.db.schedule_occurrences e h.0,
    omega (arith, h.1),
    ((λ p k. omega (arith, h.1, k)), h.2),
  )
  claimed schedule due s (some x) e h =
      chosen (OnTables IsRow) (is_open x.status) _ _ _ s
        (λ p.
          updated try_again x.id s.db.next_id s.db.transfers s.db.money_requests
            s.db.schedule_occurrences (λ y. refl) (λ y k. k)
            (open_elsewhere schedule due x s.db.schedule_occurrences h.2 e p) h)
        h

  claims :
      (schedule due : ℕ) (s : State) (x : Option Occurrence)
      → find_occurrence schedule due s.db.schedule_occurrences ≡ x
      → OnTables IsRow s
      → Claims Other (claim_occurrence_found schedule due x s).0
  unfolding claim_occurrence_found
  claims schedule due s none e h = λ k. omega (arith, h.1, k)
  claims schedule due s (some x) e h = elim (Bool-cases (is_open x.status)) [
    | inl p ↦ rw p (open_elsewhere schedule due x s.db.schedule_occurrences h.2 e p)
    | inr p ↦ rw p tt
  ]

  changed_schedules :
      (env : Env) (owner : ℕ) (c : Change) (x : Option Schedule) (s : State)
      → OnTables IsRow s
      → OnTables IsRow (transition_found env owner c x s).1
  changed_schedules env owner c none s h = h
  changed_schedules env owner c (some x) s h = chosen (OnTables IsRow) _ _ _ _ s (λ e. h) h

  settled_status_closed : (e : Settlement) → is_open (settled_status e) ≡ false
  settled_status_closed (Settlement.paid transfer) = refl
  settled_status_closed Settlement.failed = refl
  settled_status_closed Settlement.skipped = refl

  schedules : ScheduleSteady (OnTables IsRow) Other
  unfolding insert_schedule claim_occurrence settle_occurrence update_schedule advance_schedule
      defer_schedule transition_schedule
  schedules = record {
    insertion = λ n. record { at = λ env s h. (h.0, omega (arith, h.1), h.2) };
    claim = λ schedule due. record {
      at = λ env s h.
          claimed schedule due s (find_occurrence schedule due s.db.schedule_occurrences) refl h;
    };
    claims = λ schedule due env s h.
        claims schedule due s (find_occurrence schedule due s.db.schedule_occurrences) refl h;
    settlement = λ id e d. record {
      at = λ env s h.
          updated (settle e) id s.db.next_id s.db.transfers s.db.money_requests
            s.db.schedule_occurrences (λ y. refl)
            (λ y k p. absurd (ground (arith, p, settled_status_closed e))) d h;
    };
    advance = λ id kind consume. record { at = λ env s h. h };
    deferral = λ id seconds. record { at = λ env s h. h };
    change = λ id owner c. record {
      at = λ env s h.
          changed_schedules env owner c (find schedule_key id s.db.scheduled_transfers) s h;
    };
  }

  marking : (t : Transfer) → Keeps (OnTables IsRow) (claim_reversal t)
  unfolding claim_reversal
  marking t = record { at = λ env s h. chosen (OnTables IsRow) _ _ _ _ s (λ e. h) h }

  -- The row of an occurrence that is no longer pending, with an identifier that has been given out, is
  -- found unchanged after whatever calls are made, if the identifiers in the table are unique.
  pub settled_final :
      {w v : World}
      → Reaches w v
      → IsKeyed occurrence_key w.db.schedule_occurrences
      → o.id < w.db.next_id
      → find_occurrence o.schedule_id o.due_at w.db.schedule_occurrences ≡ some o
      → find_occurrence o.schedule_id o.due_at v.db.schedule_occurrences ≡ some o
  settled_final {w} reached keyed given there =
      (Reaches-OnWorld
        (record {
          shared = OnTables-Steady grows;
          marking = marking;
          requests =
              Aside.apart (record { requests = λ s n rs le h. (h.0, omega (arith, h.1, le), h.2) });
          splits = OnTables-SplitSteady grows;
          sessions = unseen_tokens (λ s n ts le h.
              grows.later {ts = s.db.transfers} {rs = s.db.money_requests}
                {os = s.db.schedule_occurrences} le h);
          outbox = unseen_outbox (λ s es ns h. h);
          schedules = schedules;
        })
        reached (there, given, elsewhere w.db.schedule_occurrences keyed there)).0
