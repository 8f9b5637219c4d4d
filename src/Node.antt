-- ===== src/Node.antt =====
-- internal/node.
pub mod Hash
pub mod Latency
pub mod Entry
