-- ===== src/Inference.antt =====
-- The inference mesh: inference/secdogie_inference.
pub mod Breaker
pub mod Health
pub mod Mutiny
pub mod Lease
