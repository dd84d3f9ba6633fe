-- ===== src/Worker.antt =====
-- Package worker (internal/worker).
pub mod Policy
pub mod Stages
pub mod Guard
pub mod Finalize
pub mod Program
pub mod Loop
pub mod Claimed
pub mod Prepare
pub mod Served
