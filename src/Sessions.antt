-- ===== src/Sessions.antt =====
-- The session manager (src/task/session/session_manager.h).
pub mod Manager
pub mod Fresh
pub mod Examples
