-- ===== src/Tests/Splits.antt =====
-- A dinner that Alice has paid for, of which Bob has paid his share back.
use pstu_hackathon.Base.{ℕ, ◌+◌, ◌≡◌, refl, true, some, none, List, [], ◌∷◌, length, arith}
use pstu_hackathon.Base.Int.{pos}
use pstu_hackathon.Shared.Allocate.{sum}
use pstu_hackathon.Platform.Schema.{MoneyRequest, RequestStatus, BillSplit}
use pstu_hackathon.Platform.Canonical.{codes}
use pstu_hackathon.Platform.Action.{State, ok}
use pstu_hackathon.Split.{CreateSplitInput, allocate, split_dto, summary_dto}
use pstu_hackathon.Split.Repo.{SplitLeg, list_legs, join_legs, sort_legs, summary_of}
use pstu_hackathon.Split.Whole.{allocate_whole}
use pstu_hackathon.Split.Progress.{progress_agrees}
use pstu_hackathon.Tests.Example.{env, opened}

abbrev dinner : CreateSplitInput
dinner = record {
  total_amount_minor = 10_000;
  description = codes "dinner";
  participants =
      record { phone = 1730; weight = some 2 } ∷ record { phone = 1740; weight = some 1 } ∷ [];
  include_self = true;
  self_weight = 4;
  expires_in_days = 7;
}

allocate_whole_example :
    (xs : List ℕ) × (allocate dinner ≡ some xs) × (sum xs ≡ 10_000) × (length xs ≡ 3)
allocate_whole_example = allocate_whole dinner (omega arith)

abbrev bill : BillSplit
bill = record {
  id = 40;
  creator_user_id = 20;
  total_amount_minor = pos 3000;
  description = codes "dinner";
  participant_count = 2;
  created_at = 5;
}

abbrev share : MoneyRequest
share = record {
  id = 52;
  requester_user_id = 20;
  payer_user_id = 30;
  amount_minor = pos 1500;
  note = some (codes "dinner");
  status = RequestStatus.accepted;
  expires_at = 9_000_000;
  settled_transfer_id = none;
  decline_reason = none;
  version = 1;
  split_id = some 40;
  created_at = 5;
}

abbrev eaten : State
eaten = record {
  db = record opened { money_requests = share ∷ []; bill_splits = bill ∷ [] };
  hooks = [];
}

abbrev bobs : SplitLeg
bobs = record {
  request_id = 52;
  payer_user_id = 30;
  payer_name = codes "Bob";
  payer_phone = 1730;
  amount_minor = pos 1500;
  status = RequestStatus.accepted;
  settled_reference = none;
}

one_leg : list_legs 40 env eaten ≡ (ok (bobs ∷ []), eaten)
unfolding list_legs join_legs sort_legs pstu_hackathon.Base.Table.sort_by
    pstu_hackathon.Base.Table.insert_by
one_leg = refl

progress_agrees_example :
    ((split_dto bill (bobs ∷ [])).total
      ≡ (summary_dto (summary_of eaten.db.money_requests bill)).total)
    × ((split_dto bill (bobs ∷ [])).collected
        ≡ (summary_dto (summary_of eaten.db.money_requests bill)).collected)
    × ((split_dto bill (bobs ∷ [])).outstanding
        ≡ (summary_dto (summary_of eaten.db.money_requests bill)).outstanding)
    × (length (split_dto bill (bobs ∷ [])).legs
        ≡ (summary_dto (summary_of eaten.db.money_requests bill)).leg_count)
progress_agrees_example = progress_agrees bill env eaten (bobs ∷ []) ((λ e. not_none e), tt) one_leg
  where
    not_none : some (pstu_hackathon.Tests.Example.person 30 1730 (codes "Bob")) ≡ none → ⊥
    not_none e = cc
