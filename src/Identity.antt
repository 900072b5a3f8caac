-- ===== src/Identity.antt =====
-- DID identity: identity/secdogie_identity.
pub mod Json
pub mod Signing
pub mod Capability
pub mod Revocation
pub mod Store
pub mod Policy
