-- ===== src/Tests.antt =====
-- Concrete states, runs on them, and the theorems at them.
pub mod Data
pub mod Exposure
pub mod Views
pub mod Leases
pub mod Requests
pub mod Pools
pub mod Cleanups
pub mod Flushes
pub mod Tables
pub mod Platforms
pub mod Probes
