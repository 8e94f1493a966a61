-- ===== src/Tests/Final.antt =====
-- A reversed transfer and a declined request on the small database.
use pstu_hackathon.Base.{◌≡◌, refl, some, none, [], ◌∷◌, arith}
use pstu_hackathon.Base.Int.{pos}
use pstu_hackathon.Base.Table.{find}
use pstu_hackathon.Platform.Schema.{
  Transfer, TransferType, TransferStatus, MoneyRequest, RequestStatus,
}
use pstu_hackathon.Platform.Transaction.{World}
use pstu_hackathon.Platform.Canonical.{Json, codes}
use pstu_hackathon.Ledger.{transfer_key}
use pstu_hackathon.Request.Repo.{request_key}
use pstu_hackathon.App.{Call, perform, here, after}
use pstu_hackathon.App.Reversed.{reversed_final}
use pstu_hackathon.App.Ended.{ended_final}
use pstu_hackathon.Tests.Example.{env, opened}
use pstu_hackathon.Tests.Payment.{pin}

abbrev undone : Transfer
undone = record {
  id = 60;
  reference = codes "TF260701AAAAAAAA";
  from_account_id = 2;
  to_account_id = 3;
  amount_minor = pos 700;
  type = TransferType.p2p;
  status = TransferStatus.reversed;
  note = none;
  idempotency_key_id = none;
  reversal_of = none;
  created_at = 5;
}

abbrev declined : MoneyRequest
declined = record {
  id = 51;
  requester_user_id = 30;
  payer_user_id = 20;
  amount_minor = pos 900;
  note = none;
  status = RequestStatus.declined;
  expires_at = 9_000_000;
  settled_transfer_id = none;
  decline_reason = none;
  version = 1;
  split_id = none;
  created_at = 5;
}

abbrev settled : World
settled = record {
  db = record opened { transfers = undone ∷ []; money_requests = declined ∷ [] };
  cache = λ id. none;
  positions = [];
  alerts = [];
}

abbrev second_reversal : Call
second_reversal = Call.reversing 20 (codes "TF260701AAAAAAAA") 9 pin Json.undefined

reversed_final_example :
    find transfer_key 60 (perform second_reversal env settled).db.transfers ≡ some undone
reversed_final_example =
    reversed_final undone (after settled second_reversal env here) refl (omega arith) refl

abbrev late_payment : Call
late_payment = Call.accepting 20 51 9 pin Json.undefined

ended_final_example :
    find request_key 51 (perform late_payment env settled).db.money_requests ≡ some declined
ended_final_example =
    ended_final declined refl (after settled late_payment env here) (refl, tt) (omega arith) refl
