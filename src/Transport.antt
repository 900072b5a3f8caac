-- ===== src/Transport.antt =====
-- The transport: transport/secdogie_transport.
pub mod Mux
pub mod Endpoint
pub mod Membership
pub mod Dht
