-- ===== src/Tests.antt =====
-- A small database, and runs of the modelled code on it.
pub mod Example
pub mod Payment
pub mod Final
pub mod Schedules
pub mod Guards
pub mod Witnesses
pub mod Splits
pub mod Reports
pub mod Sessions
pub mod Lost
