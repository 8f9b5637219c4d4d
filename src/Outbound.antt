-- ===== src/Outbound.antt =====
-- internal/outbound/manager.go: the outbound of a node.
pub mod Build
pub mod Manager
