-- ===== src/Request/Repo.antt =====
-- backend/src/modules/requests/request.repo.ts: every transition carries its precondition.
use pstu_hackathon.Base.{
  map, ℕ, zero, suc, ◌+◌, Bool, true, false, ◌&&◌, Option, none, some, List, [], ◌∷◌, ltb, leb,
  ◌==◌, if◌then◌else◌,
}
use pstu_hackathon.Base.Int.{ℤ}
use pstu_hackathon.Base.Table.{find, modify, select_where}
use pstu_hackathon.Shared.Text.{Text}
use pstu_hackathon.Platform.Schema.{MoneyRequest, RequestStatus}
use pstu_hackathon.Platform.Action.{State, Result, ok, Tx, gets}

abbrev pub request_key : MoneyRequest → ℕ
request_key r = r.id

abbrev pub is_pending : RequestStatus → Bool
is_pending RequestStatus.pending = true
is_pending RequestStatus.accepted = false
is_pending RequestStatus.declined = false
is_pending RequestStatus.cancelled = false
is_pending RequestStatus.expired = false

pub record NewRequest : Type 0 where
  pub requester_user_id : ℕ
  pub payer_user_id : ℕ
  pub amount_minor : ℤ
  pub note : Option Text
  pub expires_at : ℕ
  pub split_id : Option ℕ

abbrev pub request_row : NewRequest → ℕ → ℕ → MoneyRequest
request_row r id now = record {
  id = id;
  requester_user_id = r.requester_user_id;
  payer_user_id = r.payer_user_id;
  amount_minor = r.amount_minor;
  note = r.note;
  status = RequestStatus.pending;
  expires_at = r.expires_at;
  settled_transfer_id = none;
  decline_reason = none;
  version = 0;
  split_id = r.split_id;
  created_at = now;
}

unfoldable pub insert_request : NewRequest → Tx MoneyRequest
insert_request r env s =
    let row = request_row r s.db.next_id env.now in
    (
      ok row,
      record s {
        db = record s.db { next_id = s.db.next_id + 1; money_requests = row ∷ s.db.money_requests };
      },
    )

unfoldable pub find_request : ℕ → Tx (Option MoneyRequest)
find_request id = gets (λ s. find request_key id s.db.money_requests)

-- the row, if the guard of the WHERE clause holds
abbrev pub guarded : (MoneyRequest → Bool) → Option MoneyRequest → Option MoneyRequest
guarded g none = none
guarded g (some r) = if g r then some r else none

abbrev pub is_settleable : ℕ → ℕ → MoneyRequest → Bool
is_settleable payer now r =
    (r.payer_user_id == payer) && (is_pending r.status && ltb now r.expires_at)

unfoldable pub lock_settleable_request : ℕ → ℕ → Tx (Option MoneyRequest)
lock_settleable_request id payer env s =
    (ok (guarded (is_settleable payer env.now) (find request_key id s.db.money_requests)), s)

-- UPDATE … SET f WHERE id = $1 AND guard RETURNING *
abbrev pub update_guarded :
    (MoneyRequest → Bool)
    → (MoneyRequest → MoneyRequest)
    → ℕ
    → Option MoneyRequest
    → State
    → Result (Option MoneyRequest) × State
update_guarded g f id none s = (ok none, s)
update_guarded g f id (some r) s =
    if g r
    then (
      ok (some (f r)),
      record s {
        db = record s.db { money_requests = modify request_key id f s.db.money_requests };
      },
    )
    else (ok none, s)

abbrev pub accept : ℕ → MoneyRequest → MoneyRequest
accept transfer_id r = record r {
  status = RequestStatus.accepted;
  settled_transfer_id = some transfer_id;
  version = r.version + 1;
}

abbrev pub row_count : Result (Option MoneyRequest) × State → Result Bool × State
row_count (ok none, s) = (ok false, s)
row_count (ok (some r), s) = (ok true, s)
row_count (Result.err e, s) = (Result.err e, s)

unfoldable pub mark_accepted : ℕ → ℕ → Tx Bool
mark_accepted id transfer_id env s = row_count (
    update_guarded (λ r. is_pending r.status) (accept transfer_id) id
      (find request_key id s.db.money_requests) s)

-- the two ways in which a person ends a request
pub data Terminal : Type 0 where
  decline cancel : Terminal

abbrev pub terminal_status : Terminal → RequestStatus
terminal_status Terminal.decline = RequestStatus.declined
terminal_status Terminal.cancel = RequestStatus.cancelled

-- `actorColumn`
abbrev pub is_actor : Terminal → ℕ → MoneyRequest → Bool
is_actor Terminal.decline actor r = r.payer_user_id == actor
is_actor Terminal.cancel actor r = r.requester_user_id == actor

-- COALESCE(reason, decline_reason)
abbrev pub coalesce : Option Text → Option Text → Option Text
coalesce none old = old
coalesce (some t) old = some t

abbrev pub finish : RequestStatus → Option Text → MoneyRequest → MoneyRequest
finish to reason r = record r {
  status = to;
  decline_reason = coalesce reason r.decline_reason;
  version = r.version + 1;
}

unfoldable pub transition : ℕ → Terminal → ℕ → Option Text → Tx (Option MoneyRequest)
transition id to actor reason env s =
    update_guarded (λ r. is_actor to actor r && is_pending r.status)
      (finish (terminal_status to) reason) id (find request_key id s.db.money_requests) s

-- ORDER BY expires_at
unfoldable pub insert_by_expiry : MoneyRequest → List MoneyRequest → List MoneyRequest
insert_by_expiry r [] = r ∷ []
insert_by_expiry r (q ∷ qs) =
    let rest = insert_by_expiry r qs in
    if ltb q.expires_at r.expires_at then q ∷ rest else r ∷ q ∷ qs

unfoldable pub sort_by_expiry : List MoneyRequest → List MoneyRequest
unfolding insert_by_expiry
sort_by_expiry [] = []
sort_by_expiry (r ∷ rs) = insert_by_expiry r (sort_by_expiry rs)

abbrev pub take {ℓ} : {A : Type ℓ} → ℕ → List A → List A
take zero xs = []
take (suc n) [] = []
take (suc n) (x ∷ xs) = x ∷ take n xs

abbrev pub is_due : ℕ → MoneyRequest → Bool
is_due now r = is_pending r.status && leb r.expires_at now

unfoldable pub due_requests : ℕ → ℕ → List MoneyRequest → List MoneyRequest
unfolding sort_by_expiry
due_requests now limit rs = take limit (sort_by_expiry (select_where (is_due now) rs))

-- UPDATE … SET status = 'EXPIRED' WHERE id IN (…) RETURNING *
unfoldable pub expire_all : List MoneyRequest → List MoneyRequest → List MoneyRequest
expire_all [] rs = rs
expire_all (d ∷ ds) rs =
    modify request_key d.id (finish RequestStatus.expired none) (expire_all ds rs)

unfoldable pub expire_due : ℕ → Tx (List MoneyRequest)
unfolding due_requests expire_all
expire_due limit env s =
    let due = due_requests env.now limit s.db.money_requests in
    (
      ok (map (finish RequestStatus.expired none) due),
      record s { db = record s.db { money_requests = expire_all due s.db.money_requests } },
    )
