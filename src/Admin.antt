-- ===== src/Admin.antt =====
-- backend/src/modules/admin.
pub mod Reconciliation
