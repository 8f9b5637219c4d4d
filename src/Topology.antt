-- ===== src/Topology.antt =====
-- internal/topology.
pub mod Pool
pub mod Subscriptions
pub mod Cleanup
