-- ===== src/Split/Repo.antt =====
-- backend/src/modules/splits/split.repo.ts: a split is a header row, and the requests that carry its
-- identifier are its legs.
use pstu_hackathon.Base.{
  ℕ, ◌+◌, Bool, true, false, Option, none, some, List, [], ◌∷◌, ltb, ◌==◌, map, length,
  if◌then◌else◌,
}
use pstu_hackathon.Base.Int.{ℤ, pos, ◌+ℤ◌, ◌-ℤ◌}
use pstu_hackathon.Base.Table.{find, select_where, sort_by, take}
use pstu_hackathon.Shared.Text.{Text}
use pstu_hackathon.Platform.Schema.{User, Transfer, MoneyRequest, RequestStatus, BillSplit}
use pstu_hackathon.Platform.Action.{Env, ok, Tx, gets}
use pstu_hackathon.Ledger.{transfer_key}
use pstu_hackathon.Transfer.Repo.{user_key}

pub record NewSplit : Type 0 where
  pub creator_user_id : ℕ
  pub total_amount_minor : ℤ
  pub description : Text
  pub participant_count : ℕ

abbrev pub split_row : NewSplit → ℕ → ℕ → BillSplit
split_row n id now = record {
  id = id;
  creator_user_id = n.creator_user_id;
  total_amount_minor = n.total_amount_minor;
  description = n.description;
  participant_count = n.participant_count;
  created_at = now;
}

unfoldable pub insert_split : NewSplit → Tx BillSplit
insert_split n env s =
    let row = split_row n s.db.next_id env.now in
    (
      ok row,
      record s {
        db = record s.db { next_id = s.db.next_id + 1; bill_splits = row ∷ s.db.bill_splits };
      },
    )

abbrev pub split_key : BillSplit → ℕ
split_key b = b.id

unfoldable pub find_split : ℕ → Tx (Option BillSplit)
find_split id = gets (λ s. find split_key id s.db.bill_splits)

pub record SplitLeg : Type 0 where
  pub request_id : ℕ
  pub payer_user_id : ℕ
  pub payer_name : Text
  pub payer_phone : ℕ
  pub amount_minor : ℤ
  pub status : RequestStatus
  pub settled_reference : Option Text

abbrev pub is_leg_of : ℕ → MoneyRequest → Bool
is_leg_of split r = elim r.split_id [ none ↦ false | some id ↦ id == split ]

-- LEFT JOIN transfers
abbrev pub reference_of : List Transfer → Option ℕ → Option Text
reference_of ts none = none
reference_of ts (some id) = elim (find transfer_key id ts) [
  | none ↦ none
  | some t ↦ some t.reference
]

-- the leg of a request, with its payer
abbrev pub leg_of : List Transfer → MoneyRequest → User → SplitLeg
leg_of ts r u = record {
  request_id = r.id;
  payer_user_id = r.payer_user_id;
  payer_name = u.name;
  payer_phone = u.phone;
  amount_minor = r.amount_minor;
  status = r.status;
  settled_reference = reference_of ts r.settled_transfer_id;
}

-- JOIN users
abbrev pub with_payer : List Transfer → MoneyRequest → Option User → List SplitLeg → List SplitLeg
with_payer ts r none legs = legs
with_payer ts r (some u) legs = leg_of ts r u ∷ legs

unfoldable pub join_legs : List User → List Transfer → List MoneyRequest → List SplitLeg
join_legs us ts [] = []
join_legs us ts (r ∷ rs) = with_payer ts r (find user_key r.payer_user_id us) (join_legs us ts rs)

-- ORDER BY u.name, r.id
unfoldable pub sort_legs : Env → List SplitLeg → List SplitLeg
unfolding sort_by
sort_legs env legs =
    sort_by (λ (l : SplitLeg). env.collation l.payer_name)
      (sort_by (λ (l : SplitLeg). l.request_id) legs)

unfoldable pub list_legs : ℕ → Tx (List SplitLeg)
unfolding join_legs sort_legs
list_legs split env s = (
  ok (
      sort_legs env
        (join_legs s.db.users s.db.transfers (select_where (is_leg_of split) s.db.money_requests))),
  s,
)

abbrev pub is_accepted : RequestStatus → Bool
is_accepted RequestStatus.accepted = true
is_accepted RequestStatus.pending = false
is_accepted RequestStatus.declined = false
is_accepted RequestStatus.cancelled = false
is_accepted RequestStatus.expired = false

pub record SplitSummary : Type 0 where
  pub split : BillSplit
  pub requested_minor : ℤ
  pub collected_minor : ℤ
  pub outstanding_minor : ℤ
  pub settled_count : ℕ
  pub leg_count : ℕ

-- coalesce(sum(amount_minor), 0)
unfoldable pub sum_amounts : List MoneyRequest → ℤ
sum_amounts [] = pos 0
sum_amounts (r ∷ rs) = r.amount_minor +ℤ sum_amounts rs

unfoldable pub summary_of : List MoneyRequest → BillSplit → SplitSummary
unfolding sum_amounts
summary_of requests split =
    let legs = select_where (is_leg_of split.id) requests in
    let settled = select_where (λ r. is_accepted r.status) legs in
    record {
      split = split;
      requested_minor = sum_amounts legs;
      collected_minor = sum_amounts settled;
      outstanding_minor = sum_amounts legs -ℤ sum_amounts settled;
      settled_count = length settled;
      leg_count = length legs;
    }

-- ORDER BY created_at DESC
unfoldable pub insert_newest : BillSplit → List BillSplit → List BillSplit
insert_newest b [] = b ∷ []
insert_newest b (c ∷ cs) =
    let rest = insert_newest b cs in if ltb b.created_at c.created_at then c ∷ rest else b ∷ c ∷ cs

unfoldable pub newest_first : List BillSplit → List BillSplit
unfolding insert_newest
newest_first [] = []
newest_first (b ∷ bs) = insert_newest b (newest_first bs)

unfoldable pub list_splits : ℕ → ℕ → Tx (List SplitSummary)
unfolding newest_first summary_of
list_splits creator limit env s = (
  ok (
      map (summary_of s.db.money_requests) (
        take limit
          (newest_first (select_where (λ b. b.creator_user_id == creator) s.db.bill_splits)))),
  s,
)
