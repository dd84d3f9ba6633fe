-- ===== src/Domain.antt =====
-- Package domain (internal/domain).
pub mod Ids
pub mod Status
pub mod Task
pub mod Admin
pub mod Account
pub mod Session
pub mod Follow
pub mod History
pub mod TargetProfile
pub mod Bootstrap
