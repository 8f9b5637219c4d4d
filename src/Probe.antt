-- ===== src/Probe.antt =====
-- internal/probe/manager.go: the active probes of the nodes.
pub mod Queue
pub mod Tasks
pub mod Trace
pub mod Attempts
