-- ===== src/Lib.antt =====
-- The verification library of TakaFlow, a wallet over a double-entry ledger (takaflow/backend).
--
-- A request enters by an endpoint, which checks a PIN and runs one transaction: it claims an
-- idempotency key, reads and locks rows, moves money by `postDoubleEntry`, writes events and audit
-- rows, and completes the key with the response. Balances are published to Redis after the commit.
--
-- Files, and the code that each of them models (paths from takaflow/backend/src):
--   Base, Shared       integers, tables, text; shared/money.ts and shared/allocate.ts
--   Platform.Errors    platform/errors/index.ts
--   Platform.Schema    the rows of the tables of takaflow/backend/migrations
--   Platform.Database  the stored response bodies, the platform's own tables, and the database
--   Platform.Action    code that reads an environment, changes a state and may throw; `Keeps` has the
--                      rules for its invariants, `Yields` those for what it returns, `Steps` for its runs
--   Platform.Transaction, .Outbox, .Idempotency, .Canonical, .BalanceCache
--                      platform/db/transaction.ts, platform/outbox/index.ts, platform/idempotency/store.ts,
--                      platform/cache/balance.cache.ts and `trackWrite` of platform/db/read-router.ts
--   Ledger             modules/transfers/ledger.service.ts; `Ledger.Outcome` has the rule that describes
--                      it, `Ledger.Books` the well-formed ledger
--   Auth.Pin           modules/auth/pin.service.ts
--   Auth.Session       modules/auth/auth.service.ts and auth.repo.ts: logging in, refresh tokens, logging out
--   Transfer           modules/transfers/transfer.service.ts, transfer.repo.ts and velocity.service.ts
--   Reversal           modules/transfers/reversal.service.ts
--   Request            modules/requests and workers/request-expiry.worker.ts (`Request.Ending`)
--   Split              modules/splits: `Split.Repo` has the queries, `Split.Whole` the shares and
--                      `Split.Progress` what the two views show
--   Schedule           modules/schedules and workers/schedule.worker.ts (`Schedule.Run`, one schedule, and
--                      `Schedule.Tick`, a tick); `Schedule.Occurrences` has the payments that are due
--   Dispatcher         workers/outbox.dispatcher.ts and modules/notifications (`Dispatcher.Notify`)
--   Admin              modules/admin/reconciliation.service.ts
--   App                the calls of the endpoints and the workers, one after the other
--
-- How the invariants are proved. `Ledger.Steady`, `Request.Steady`, `Split.Steady`,
-- `Schedule.Steady`, `Auth.Session.Steady`, `Dispatcher.Steady` and `App.Steady` have, as records,
-- the interface between a property of the state and the program: that the property survives each
-- single write. Every handler keeps a property that does. The books, a completed key, an ended
-- request, a reversed transfer, a settled occurrence and a dead family of refresh tokens are
-- properties that fill the interface (`Ledger.Books.Writes`, `App.Keys`, `App.Ended`,
-- `App.Reversed`, `App.Settled`, `App.Revoked`). `Tests` has a small database, and the theorems on
-- it.
--
-- Conventions. A function of the code that gets a `tx` is a `Tx`: from an environment and a state
-- (the database and the hooks registered so far) to a result and a state. A function outside of a
-- transaction is a `Handler` on a `World` (the committed database, Redis, the alerts sent). SQL
-- statements are functions on the tables; a row lock is the read of the row, since the statements of
-- one transaction run one after the other here and concurrent transactions are taken in the order in
-- which they get their locks. Identifiers, phone numbers, hashes and idempotency keys are numbers.
-- Amounts are integers in poisha, without a bound: the code computes with bigint, and the columns'
-- BIGINT range is not modelled. A note has at most 140 characters, as the schemas of requests and
-- the table demand. Instants of the database are in microseconds, those of the process in
-- milliseconds. Everything that the code takes from outside is a field of `Env`: clocks, random
-- bytes, new tokens, Argon2, SHA-256, JSON.stringify of a string, the time that BEGIN takes, what
-- becomes of an attempt, Redis' clock, and whether Redis answers.
--
-- Retries. `with_attempts` runs at most as many attempts as it is given (3, or 1 where the code only
-- reads), by recursion on the number that is left. The environment says what becomes of each
-- attempt: its statements are answered, or one of them fails or comes after the deadline and nothing
-- is committed, or the COMMIT is carried out and its answer is lost. An error that the code catches
-- within a callback comes from the callback. The waits between attempts are not modelled.
-- `drain_schedules` runs at most as many ticks as it is given, which is the bound of the loop in the
-- code, and so does `drain_outbox`.
--
-- Not modelled: the HTTP layer, logging, metrics, pools, migrations, read replicas, and the
-- frontend, which are input and output; registration, history, statements and administration; and a
-- rotation of one token during the revocation of its family, which locks another row.
pub mod Base
pub mod Shared
pub mod Platform
pub mod Ledger
pub mod Auth
pub mod Transfer
pub mod Reversal
pub mod Request
pub mod Split
pub mod Schedule
pub mod Dispatcher
pub mod Admin
pub mod App
pub mod Tests
