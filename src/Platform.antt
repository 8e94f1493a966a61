-- ===== src/Platform.antt =====
-- backend/src/platform: errors, the database as the SQL of the repositories sees it, transactions.
pub mod Errors
pub mod Schema
pub mod Database
pub mod Action
pub mod BalanceCache
pub mod Transaction
pub mod Outbox
pub mod Idempotency
pub mod Canonical
