-- ===== src/Repo.antt =====
-- Package repository/postgres (internal/repository): the tables and the statements on them.
pub mod Table
pub mod Accounts
pub mod Tasks
pub mod Sessions
pub mod Results
