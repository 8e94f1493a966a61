-- ===== src/Auth.antt =====
-- backend/src/modules/auth
pub mod Pin
pub mod Session
