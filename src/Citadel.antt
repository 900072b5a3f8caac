-- ===== src/Citadel.antt =====
-- The citadel: citadel/secdogie_citadel.
pub mod Socratic
pub mod Authz
pub mod ActionGate
pub mod LoopGate
pub mod Goals
pub mod Journal
pub mod Sync
