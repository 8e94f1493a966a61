-- ===== src/Schedule/Steady.antt =====
-- Schedules keep a steady property that survives the writes to their two tables.
use pstu_hackathon.Base.{ℕ, Bool, Option, none, some, List, [], ◌∷◌}
use pstu_hackathon.Platform.Errors.{AppError, domain, pg, fault}
use pstu_hackathon.Platform.Schema.{Schedule, IntervalKind}
use pstu_hackathon.Platform.Action.{Env, State, Result, ok, err, Tx, ◌>>=◌, continue}
use pstu_hackathon.Platform.Action.Keeps.{Keeps, keeps_rules, bind-Keeps, pure-Keeps}
use pstu_hackathon.Platform.Canonical.{Json}
use pstu_hackathon.Ledger.{PostedTransfer}
use pstu_hackathon.Ledger.Steady.{Steady}
use pstu_hackathon.Transfer.Steady.{
  OnWorld, with_read_transaction-Keeps, with_transaction-Keeps, verify_pin-Keeps,
  idempotently-Keeps, transfer_rules,
}
use pstu_hackathon.Schedule.Repo.{
  NewSchedule, insert_schedule, find_schedule, find_due_schedule_ids, claim_due_schedule,
  advance_schedule, defer_schedule, Change, transition_schedule,
}
use pstu_hackathon.Schedule.Occurrences.{
  ClaimedOccurrence, claim_occurrence, Settlement, settle_occurrence,
}
use pstu_hackathon.Schedule.{
  CreateScheduleInput, schedule_claimed, create_schedule, unchanged, announce_change, on_change,
  change_schedule_tx, change_schedule,
}
use pstu_hackathon.Schedule.Run.{
  pay, or_rolled_back, savepoint, skip, record_payment, give_up, record_failure, on_payment,
  attempt_payment, run_occurrence, run_claimed, run_schedule_tx, run_schedule,
}
use pstu_hackathon.Schedule.Tick.{ScheduleTickResult, run_all, run_due_schedules}

-- the occurrence that a claim returns, if it does, is one of those in `D`
abbrev pub Claims : (ℕ → Type 0) → Result (Option ClaimedOccurrence) → Type 0
Claims D (ok (some o)) = D o.id
Claims D (ok none) = Unit
Claims D (err e) = Unit

-- `P` survives the writes to the tables of schedules and occurrences. `D` holds of the occurrences whose
-- settlement it survives, and every occurrence that is claimed while `P` holds is one of them.
pub record ScheduleSteady (P : State → Type 0) (D : ℕ → Type 0) : Type 0 where
  pub insertion : (n : NewSchedule) → Keeps P (insert_schedule n)
  pub claim : (schedule due : ℕ) → Keeps P (claim_occurrence schedule due)
  pub claims :
      (schedule due : ℕ) (env : Env) (s : State)
      → P s
      → Claims D (claim_occurrence schedule due env s).0
  pub settlement : (id : ℕ) (e : Settlement) → D id → Keeps P (settle_occurrence id e)
  pub advance :
      (id : ℕ) (kind : IntervalKind) (consume : Bool) → Keeps P (advance_schedule id kind consume)
  pub deferral : (id seconds : ℕ) → Keeps P (defer_schedule id seconds)
  pub change : (id owner : ℕ) (c : Change) → Keeps P (transition_schedule id owner c)

module _ {P : State → Type 0} where
  find_schedule-Keeps : (id : ℕ) → Keeps P (find_schedule id)
  unfolding find_schedule
  find_schedule-Keeps id = search keeps_rules

  find_due_schedule_ids-Keeps : (limit : ℕ) → Keeps P (find_due_schedule_ids limit)
  unfolding find_due_schedule_ids
  find_due_schedule_ids-Keeps limit = record { at = λ env s h. h }

  claim_due_schedule-Keeps : (id : ℕ) → Keeps P (claim_due_schedule id)
  unfolding claim_due_schedule
  claim_due_schedule-Keeps id = record { at = λ env s h. h }

module _ {P : State → Type 0} {D : ℕ → Type 0} (q : ScheduleSteady P D) where
  insert_schedule-Keeps : (n : NewSchedule) → Keeps P (insert_schedule n)
  insert_schedule-Keeps = q.insertion

  settle_occurrence-Keeps : (id : ℕ) (e : Settlement) → D id → Keeps P (settle_occurrence id e)
  settle_occurrence-Keeps = q.settlement

  advance_schedule-Keeps :
      (id : ℕ) (kind : IntervalKind) (consume : Bool) → Keeps P (advance_schedule id kind consume)
  advance_schedule-Keeps = q.advance

  defer_schedule-Keeps : (id seconds : ℕ) → Keeps P (defer_schedule id seconds)
  defer_schedule-Keeps = q.deferral

  transition_schedule-Keeps : (id owner : ℕ) (c : Change) → Keeps P (transition_schedule id owner c)
  transition_schedule-Keeps = q.change

ruleset schedule_rules = (
  transfer_rules, find_schedule-Keeps, claim_due_schedule-Keeps, insert_schedule-Keeps,
  settle_occurrence-Keeps, advance_schedule-Keeps, defer_schedule-Keeps, transition_schedule-Keeps,
)

module _ {P : State → Type 0} {C : ℕ → Type 0} (b : Steady P C) where
  pub pay-Keeps : (s : Schedule) → Keeps P (pay s)
  unfolding pay
  pay-Keeps s = search (transfer_rules) depth 32

  rolled_back :
      {A : Type 0} (before : State) (o : Result A × State)
      → P before
      → P o.1
      → P (or_rolled_back before o).1
  rolled_back before (ok a, s) h k = k
  rolled_back before (err (domain code _), s) h k = b.hooks s.hooks before h
  rolled_back before (err (pg state constraint), s) h k = k
  rolled_back before (err fault, s) h k = k

  pub savepoint-Keeps : {A : Type 0} (m : Tx A) → Keeps P m → Keeps P (savepoint m)
  unfolding savepoint
  savepoint-Keeps m k = record { at = λ env s h. rolled_back s (m env s) h (k.at env s h) }

module _ {P : State → Type 0} {C D : ℕ → Type 0} (b : Steady P C) (q : ScheduleSteady P D) where
  schedule_claimed-Keeps :
      (owner : ℕ) (input : CreateScheduleInput) (id : ℕ)
      → C id
      → Keeps P (schedule_claimed owner input id)
  unfolding schedule_claimed
  schedule_claimed-Keeps owner input id c = search (schedule_rules) depth 40

  pub create_schedule-Keeps :
      (owner key : ℕ) (input : CreateScheduleInput) (raw : Json)
      → Keeps (OnWorld P) (create_schedule owner key input raw)
  unfolding create_schedule
  create_schedule-Keeps owner key input raw =
      search
        (
          keeps_rules, verify_pin-Keeps, with_transaction-Keeps, idempotently-Keeps,
          schedule_claimed-Keeps,
        )
        depth 24

  unchanged-Keeps : (owner id : ℕ) (c : Change) → Keeps P (unchanged owner id c)
  unfolding unchanged
  unchanged-Keeps owner id c = search (schedule_rules) depth 24

  announce_change-Keeps :
      (owner : ℕ) (c : Change) (s : Schedule) → Keeps P (announce_change owner c s)
  unfolding announce_change
  announce_change-Keeps owner c s = search (schedule_rules) depth 24

  on_change-Keeps :
      (owner id : ℕ) (c : Change) (o : Option Schedule) → Keeps P (on_change owner id c o)
  on_change-Keeps owner id c none = unchanged-Keeps owner id c
  on_change-Keeps owner id c (some s) = announce_change-Keeps owner c s

  change_schedule_tx-Keeps : (owner id : ℕ) (c : Change) → Keeps P (change_schedule_tx owner id c)
  unfolding change_schedule_tx
  change_schedule_tx-Keeps owner id c = search (schedule_rules, on_change-Keeps) depth 12

  pub change_schedule-Keeps :
      (owner id : ℕ) (c : Change) → Keeps (OnWorld P) (change_schedule owner id c)
  unfolding change_schedule
  change_schedule-Keeps owner id c =
      with_transaction-Keeps b _ (change_schedule_tx-Keeps owner id c)

  skip-Keeps : (s : Schedule) (o : ClaimedOccurrence) → D o.id → Keeps P (skip s o)
  unfolding skip
  skip-Keeps s o d = search (schedule_rules) depth 24

  record_payment-Keeps :
      (s : Schedule) (o : ClaimedOccurrence) (t : PostedTransfer)
      → D o.id
      → Keeps P (record_payment s o t)
  unfolding record_payment
  record_payment-Keeps s o t d = search (schedule_rules) depth 24

  give_up-Keeps : (s : Schedule) (o : ClaimedOccurrence) → D o.id → Keeps P (give_up s o)
  unfolding give_up
  give_up-Keeps s o d = search (schedule_rules) depth 24

  record_failure-Keeps :
      (s : Schedule) (o : ClaimedOccurrence) (e : AppError)
      → D o.id
      → Keeps P (record_failure s o e)
  unfolding record_failure
  record_failure-Keeps s o e d = search (schedule_rules, give_up-Keeps) depth 24

  on_payment-Keeps :
      (s : Schedule) (o : ClaimedOccurrence) (r : Result PostedTransfer)
      → D o.id
      → Keeps P (on_payment s o r)
  on_payment-Keeps s o (ok t) d = record_payment-Keeps s o t d
  on_payment-Keeps s o (err e) d = record_failure-Keeps s o e d

  attempt_payment-Keeps :
      (s : Schedule) (o : ClaimedOccurrence) → D o.id → Keeps P (attempt_payment s o)
  unfolding attempt_payment
  attempt_payment-Keeps s o d =
      search (keeps_rules, savepoint-Keeps, pay-Keeps, on_payment-Keeps) depth 12

  run_some-Keeps :
      (s : Schedule) (o : ClaimedOccurrence) → D o.id → Keeps P (run_occurrence s (some o))
  unfolding run_occurrence
  run_some-Keeps s o d = search (keeps_rules, skip-Keeps, attempt_payment-Keeps) depth 12

  run_none-Keeps : (s : Schedule) → Keeps P (run_occurrence s none)
  unfolding run_occurrence
  run_none-Keeps s = search (schedule_rules) depth 12

  occurrence_ran :
      (sch : Schedule) (r : Result (Option ClaimedOccurrence)) (env : Env) (s : State)
      → Claims D r
      → P s
      → P (continue r (run_occurrence sch) env s).1
  unfolding continue
  occurrence_ran sch (err e) env s d h = h
  occurrence_ran sch (ok none) env s d h = (run_none-Keeps sch).at env s h
  occurrence_ran sch (ok (some o)) env s d h = (run_some-Keeps sch o d).at env s h

  run_claimed-Keeps : (o : Option Schedule) → Keeps P (run_claimed o)
  unfolding run_claimed ◌>>=◌
  run_claimed-Keeps none = pure-Keeps _
  run_claimed-Keeps (some sch) = record {
    at = λ env s h.
        occurrence_ran sch (claim_occurrence sch.id sch.next_run_at env s).0 env
          (claim_occurrence sch.id sch.next_run_at env s).1
          (q.claims sch.id sch.next_run_at env s h) ((q.claim sch.id sch.next_run_at).at env s h);
  }

  run_schedule_tx-Keeps : (id : ℕ) → Keeps P (run_schedule_tx id)
  unfolding run_schedule_tx
  run_schedule_tx-Keeps id =
      search (keeps_rules, claim_due_schedule-Keeps, run_claimed-Keeps) depth 12

  pub run_schedule-Keeps : (id : ℕ) → Keeps (OnWorld P) (run_schedule id)
  unfolding run_schedule
  run_schedule-Keeps id = with_transaction-Keeps b _ (run_schedule_tx-Keeps id)

  run_all-Keeps : (ids : List ℕ) (r : ScheduleTickResult) → Keeps (OnWorld P) (run_all ids r)
  unfolding run_all
  run_all-Keeps [] r = pure-Keeps r
  run_all-Keeps (id ∷ ids) r = bind-Keeps _ _ (run_schedule-Keeps id) (λ o. run_all-Keeps ids _)

  pub run_due_schedules-Keeps : (limit : ℕ) → Keeps (OnWorld P) (run_due_schedules limit)
  unfolding run_due_schedules
  run_due_schedules-Keeps limit =
      bind-Keeps _ _ (with_read_transaction-Keeps b _ (find_due_schedule_ids-Keeps limit))
        (λ due. run_all-Keeps due _)
