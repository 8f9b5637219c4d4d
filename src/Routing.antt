-- ===== src/Routing.antt =====
-- internal/routing.
pub mod Window
pub mod Events
pub mod Load
pub mod Lease
pub mod Evaluation
pub mod Random
pub mod Selection
pub mod Quota
pub mod Sticky
pub mod Cleaner
pub mod Router
