-- ===== src/Pages.antt =====
-- src/frontend/src/pages: what the pages decide.
pub mod Setup
pub mod Join
