-- ===== src/Transfer/Books.antt =====
-- What it means that the books of a committed database balance.
use pstu_hackathon.Platform.Transaction.{World}
use pstu_hackathon.Ledger.Books.{Books}

-- the invariant of the world
abbrev pub WorldBalanced : World → Type 0
WorldBalanced w = Books w.db
