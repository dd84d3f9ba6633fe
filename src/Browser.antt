-- ===== src/Browser.antt =====
-- Package browser (internal/browser): the restore and save of sessions.
pub mod Restorer
pub mod Verify
pub mod Rules
pub mod Follow
pub mod Login
