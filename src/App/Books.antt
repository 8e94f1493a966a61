-- ===== src/App/Books.antt =====
-- Every reachable world has balanced books.
use pstu_hackathon.Platform.Transaction.{World}
use pstu_hackathon.Ledger.Books.Writes.{IsBalanced-Steady}
use pstu_hackathon.Transfer.Books.{WorldBalanced}
use pstu_hackathon.Reversal.Books.{claim_reversal-Keeps}
use pstu_hackathon.Request.Books.{IsBalanced-RequestSteady}
use pstu_hackathon.Split.Steady.{unseen}
use pstu_hackathon.Schedule.Aside.{apart}
use pstu_hackathon.Ledger.Books.{Books-later}
use pstu_hackathon.Dispatcher.Steady.{unseen_outbox}
use pstu_hackathon.Auth.Session.Steady.{unseen_tokens}
use pstu_hackathon.App.{Reaches}
use pstu_hackathon.App.Steady.{Reaches-OnWorld}

-- Whatever calls are made one after the other, of whichever users, with whatever arguments, clocks and
-- failures, from a database whose books balance, its books balance afterwards: every balance is the sum
-- of its entries, the balances add up to zero, no user is overdrawn, and every transfer is a complete
-- double entry.
pub Reaches-WorldBalanced : {w v : World} → Reaches w v → WorldBalanced w → WorldBalanced v
Reaches-WorldBalanced = Reaches-OnWorld (record {
  shared = IsBalanced-Steady;
  marking = claim_reversal-Keeps;
  requests = IsBalanced-RequestSteady;
  sessions = unseen_tokens (λ s n ts le h. Books-later n le h);
  outbox = unseen_outbox (λ s es ns h. h);
  splits = unseen (λ s n bs le h. Books-later n le h);
  schedules = apart (record { schedules = λ s n ss os le h. Books-later n le h });
})
