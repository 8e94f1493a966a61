-- ===== src/Shared.antt =====
-- backend/src/shared
pub mod Text
pub mod Money
pub mod Allocate
