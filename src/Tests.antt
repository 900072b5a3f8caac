-- ===== src/Tests.antt =====
-- Concrete runs of the models: each theorem with hypotheses is applied where they hold.
mod Fixtures
mod Identity
mod Inference
mod Citadel
mod LoopGate
mod Goals
mod Journal
mod Mutiny
mod Lease
mod Transport
mod Dialogue
mod Membership
mod Dht
