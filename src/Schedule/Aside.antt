-- ===== src/Schedule/Aside.antt =====
-- A property that does not look at schedules and occurrences survives the writes to them.
use pstu_hackathon.Base.{ℕ, ◌+◌, ◌≤◌, arith, ◌&&◌, Option, none, some, List, ◌==◌}
use pstu_hackathon.Base.Table.{find, modify}
use pstu_hackathon.Platform.Schema.{Schedule, Occurrence}
use pstu_hackathon.Platform.Action.{Env, State, Result, ok, err}
use pstu_hackathon.Schedule.Repo.{
  legal_from, changed, schedule_key, insert_schedule, update_schedule, advance_schedule,
  defer_schedule, Change, transition_found, transition_schedule,
}
use pstu_hackathon.Schedule.Occurrences.{
  is_open, occurrence_key, try_again, find_occurrence, ClaimedOccurrence, claim_occurrence_found,
  claim_occurrence, settle_occurrence,
}
use pstu_hackathon.Schedule.Steady.{ScheduleSteady, Claims}
use pstu_hackathon.Request.Updates.{chosen}

-- `P` survives any change of the two tables and a greater next identifier.
pub record Apart (P : State → Type 0) : Type 0 where
  pub schedules :
      (s : State) (n : ℕ) (ss : List Schedule) (os : List Occurrence)
      → s.db.next_id ≤ n
      → P s
      → P (record s {
        db = record s.db { next_id = n; scheduled_transfers = ss; schedule_occurrences = os };
      })

le_self : (n : ℕ) → n ≤ n
le_self n = omega arith

le_next : (n : ℕ) → n ≤ n + 1
le_next n = omega arith

module _ {P : State → Type 0} (a : Apart P) where
  claimed :
      (schedule due : ℕ) (s : State) (o : Option Occurrence)
      → P s
      → P (claim_occurrence_found schedule due o s).1
  unfolding claim_occurrence_found
  claimed schedule due s none h = a.schedules s (s.db.next_id + 1) _ _ (le_next s.db.next_id) h
  claimed schedule due s (some o) h =
      chosen P (is_open o.status) _ _ _ s
        (λ e.
          a.schedules s s.db.next_id s.db.scheduled_transfers
            (modify occurrence_key o.id try_again s.db.schedule_occurrences) (le_self s.db.next_id)
            h)
        h

  moved :
      (env : Env) (owner : ℕ) (c : Change) (o : Option Schedule) (s : State)
      → P s
      → P (transition_found env owner c o s).1
  moved env owner c none s h = h
  moved env owner c (some r) s h =
      chosen P ((r.owner_user_id == owner) && legal_from c r.status) _ _ _ s
        (λ e.
          a.schedules s s.db.next_id
            (modify schedule_key r.id (changed env c) s.db.scheduled_transfers)
            s.db.schedule_occurrences (le_self s.db.next_id) h)
        h

  any_claim : (o : Result (Option ClaimedOccurrence)) → Claims (λ id. Unit) o
  any_claim (ok (some o)) = tt
  any_claim (ok none) = tt
  any_claim (err e) = tt

  pub apart : ScheduleSteady P (λ id. Unit)
  unfolding insert_schedule claim_occurrence settle_occurrence update_schedule advance_schedule
      defer_schedule transition_schedule
  apart = record {
    insertion = λ n. record {
      at = λ env s h.
          a.schedules s (s.db.next_id + 1) _ s.db.schedule_occurrences (le_next s.db.next_id) h;
    };
    claim = λ schedule due. record {
      at = λ env s h.
          claimed schedule due s (find_occurrence schedule due s.db.schedule_occurrences) h;
    };
    claims = λ schedule due env s h. any_claim (claim_occurrence schedule due env s).0;
    settlement = λ id e d. record {
      at =
          λ env s h. a.schedules s s.db.next_id s.db.scheduled_transfers _ (le_self s.db.next_id) h;
    };
    advance = λ id kind consume. record {
      at = λ env s h.
          a.schedules s s.db.next_id _ s.db.schedule_occurrences (le_self s.db.next_id) h;
    };
    deferral = λ id seconds. record {
      at = λ env s h.
          a.schedules s s.db.next_id _ s.db.schedule_occurrences (le_self s.db.next_id) h;
    };
    change = λ id owner c. record {
      at = λ env s h. moved env owner c (find schedule_key id s.db.scheduled_transfers) s h;
    };
  }
