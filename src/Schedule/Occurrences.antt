-- ===== src/Schedule/Occurrences.antt =====
-- backend/src/modules/schedules/schedule.repo.ts: the occurrences of schedules. An occurrence is known by
-- its schedule and the instant at which it is due, from which the code makes its key. The reason and the
-- time of a settlement are left out.
use pstu_hackathon.Base.{
  ℕ, ◌+◌, Bool, true, false, ◌&&◌, Option, none, some, List, ◌∷◌, ◌==◌, if◌then◌else◌,
}
use pstu_hackathon.Base.Table.{first_where, modify}
use pstu_hackathon.Platform.Schema.{Occurrence, OccurrenceStatus}
use pstu_hackathon.Platform.Action.{State, Result, ok, Tx}

abbrev pub occurrence_key : Occurrence → ℕ
occurrence_key o = o.id

pub record ClaimedOccurrence : Type 0 where
  pub id : ℕ
  pub attempts : ℕ

-- the scope of the unique constraint on the key
abbrev pub is_occurrence : ℕ → ℕ → Occurrence → Bool
is_occurrence schedule due o = (o.schedule_id == schedule) && (o.due_at == due)

abbrev pub find_occurrence : ℕ → ℕ → List Occurrence → Option Occurrence
find_occurrence schedule due = first_where (is_occurrence schedule due)

abbrev pub is_open : OccurrenceStatus → Bool
is_open OccurrenceStatus.pending = true
is_open OccurrenceStatus.paid = false
is_open OccurrenceStatus.failed = false
is_open OccurrenceStatus.skipped = false

abbrev pub new_occurrence : ℕ → ℕ → ℕ → Occurrence
new_occurrence id schedule due = record {
  id = id;
  schedule_id = schedule;
  due_at = due;
  status = OccurrenceStatus.pending;
  transfer_id = none;
  attempts = 1;
}

abbrev pub try_again : Occurrence → Occurrence
try_again o = record o { attempts = o.attempts + 1 }

-- INSERT … ON CONFLICT (occurrence_key) DO UPDATE … WHERE status = 'PENDING', after this look-up
unfoldable pub claim_occurrence_found :
    ℕ → ℕ → Option Occurrence → State → Result (Option ClaimedOccurrence) × State
claim_occurrence_found schedule due none s = (
  ok (some (record { id = s.db.next_id; attempts = 1 })),
  record s {
    db = record s.db {
      next_id = s.db.next_id + 1;
      schedule_occurrences = new_occurrence s.db.next_id schedule due ∷ s.db.schedule_occurrences;
    };
  },
)
claim_occurrence_found schedule due (some o) s =
    if is_open o.status
    then (
      ok (some (record { id = o.id; attempts = o.attempts + 1 })),
      record s {
        db = record s.db {
          schedule_occurrences = modify occurrence_key o.id try_again s.db.schedule_occurrences;
        };
      },
    )
    else (ok none, s)

unfoldable pub claim_occurrence : ℕ → ℕ → Tx (Option ClaimedOccurrence)
unfolding claim_occurrence_found
claim_occurrence schedule due env s =
    claim_occurrence_found schedule due (find_occurrence schedule due s.db.schedule_occurrences) s

-- the three ends of an occurrence
pub data Settlement : Type 0 where
  paid : ℕ → Settlement
  failed skipped : Settlement

abbrev pub settled_status : Settlement → OccurrenceStatus
settled_status (paid transfer) = OccurrenceStatus.paid
settled_status failed = OccurrenceStatus.failed
settled_status skipped = OccurrenceStatus.skipped

abbrev pub settled_transfer : Settlement → Option ℕ
settled_transfer (paid transfer) = some transfer
settled_transfer failed = none
settled_transfer skipped = none

abbrev pub settle : Settlement → Occurrence → Occurrence
settle e o = record o { status = settled_status e; transfer_id = settled_transfer e }

unfoldable pub settle_occurrence : ℕ → Settlement → Tx (Unit {0})
settle_occurrence id e env s = (
  ok tt,
  record s {
    db = record s.db {
      schedule_occurrences = modify occurrence_key id (settle e) s.db.schedule_occurrences;
    };
  },
)
