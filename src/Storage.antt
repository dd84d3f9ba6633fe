-- ===== src/Storage.antt =====
-- Package storage (internal/storage): the keys of objects, and the stores of sessions, screenshots
-- and artifacts.
pub mod Keys
pub mod Sequence
pub mod Objects
pub mod Sessions
