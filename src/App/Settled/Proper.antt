-- ===== src/App/Settled/Proper.antt =====
-- The identifiers of occurrences are unique, and have all been given out.
use pstu_hackathon.Base.{ℕ, ◌<◌, ◌≡◌, refl, arith, none, some, Option, List, [], ◌∷◌}
use pstu_hackathon.Base.Table.{find, modify, All, All-imp, All-modify, IsKeyed, modify-IsKeyed}
use pstu_hackathon.Platform.Schema.{Transfer, MoneyRequest, Occurrence, Schedule}
use pstu_hackathon.Platform.Action.{Env, State, Result, ok, err}
use pstu_hackathon.Request.Updates.{chosen}
use pstu_hackathon.Schedule.Repo.{
  schedule_key, insert_schedule, update_schedule, advance_schedule, defer_schedule, Change,
  transition_found, transition_schedule,
}
use pstu_hackathon.Schedule.Occurrences.{
  is_open, find_occurrence, occurrence_key, try_again, settle, ClaimedOccurrence,
  claim_occurrence_found, claim_occurrence, settle_occurrence,
}
use pstu_hackathon.Schedule.Steady.{ScheduleSteady, Claims}
use pstu_hackathon.App.Tables.{Grows, OnTables}

abbrev pub IsProper : ℕ → List Transfer → List MoneyRequest → List Occurrence → Type 0
IsProper n ts rs os = IsKeyed occurrence_key os × All (λ o. o.id < n) os

pub IsProper-Grows : Grows IsProper
IsProper-Grows = record {
  later = λ le h. (h.0, All-imp _ (λ o lt. omega (arith, lt, le)) h.1);
  posted = λ c reference now h. (h.0, All-imp _ (λ o lt. omega (arith, lt)) h.1);
}

unused : (n : ℕ) (os : List Occurrence) → All (λ o. o.id < n) os → find occurrence_key n os ≡ none
unused n [] h = refl
unused n (o ∷ os) h = ground (arith, h.0, unused n os h.1)

modified :
    (f : Occurrence → Occurrence) (id n : ℕ) (ts : List Transfer) (rs : List MoneyRequest)
    (os : List Occurrence)
    → ((o : Occurrence) → (f o).id ≡ o.id)
    → IsProper n ts rs os
    → IsProper n ts rs (modify occurrence_key id f os)
modified f id n ts rs os same h = (
  modify-IsKeyed occurrence_key id f os same h.0,
  All-modify occurrence_key id f os (λ o lt. omega (arith, lt, same o)) h.1,
)

claimed :
    (schedule due : ℕ) (s : State) (x : Option Occurrence)
    → OnTables IsProper s
    → OnTables IsProper (claim_occurrence_found schedule due x s).1
unfolding claim_occurrence_found
claimed schedule due s none h = (
  (unused s.db.next_id s.db.schedule_occurrences h.1, h.0),
  (omega arith, All-imp s.db.schedule_occurrences (λ o lt. omega (arith, lt)) h.1),
)
claimed schedule due s (some x) h =
    chosen (OnTables IsProper) (is_open x.status) _ _ _ s
      (λ p.
        modified try_again x.id s.db.next_id s.db.transfers s.db.money_requests
          s.db.schedule_occurrences (λ y. refl) h)
      h

any_claim : (o : Result (Option ClaimedOccurrence)) → Claims (λ id. Unit) o
any_claim (ok (some o)) = tt
any_claim (ok none) = tt
any_claim (err e) = tt

changed_schedules :
    (env : Env) (owner : ℕ) (c : Change) (x : Option Schedule) (s : State)
    → OnTables IsProper s
    → OnTables IsProper (transition_found env owner c x s).1
changed_schedules env owner c none s h = h
changed_schedules env owner c (some x) s h = chosen (OnTables IsProper) _ _ _ _ s (λ e. h) h

pub IsProper-ScheduleSteady : ScheduleSteady (OnTables IsProper) (λ id. Unit)
unfolding insert_schedule claim_occurrence settle_occurrence update_schedule advance_schedule
    defer_schedule transition_schedule
IsProper-ScheduleSteady = record {
  insertion = λ n. record {
    at = λ env s h. (h.0, All-imp s.db.schedule_occurrences (λ o lt. omega (arith, lt)) h.1);
  };
  claim = λ schedule due. record {
    at = λ env s h.
        claimed schedule due s (find_occurrence schedule due s.db.schedule_occurrences) h;
  };
  claims = λ schedule due env s h. any_claim (claim_occurrence schedule due env s).0;
  settlement = λ id e d. record {
    at = λ env s h.
        modified (settle e) id s.db.next_id s.db.transfers s.db.money_requests
          s.db.schedule_occurrences (λ y. refl) h;
  };
  advance = λ id kind consume. record { at = λ env s h. h };
  deferral = λ id seconds. record { at = λ env s h. h };
  change = λ id owner c. record {
    at = λ env s h.
        changed_schedules env owner c (find schedule_key id s.db.scheduled_transfers) s h;
  };
}
