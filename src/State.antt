-- ===== src/State.antt =====
-- internal/state: what is to be written to the cache database, and its batched writes.
pub mod Dirty
pub mod Writes
pub mod Engine
pub mod Tracking
