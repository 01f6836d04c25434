-- ===== src/Rt.antt =====
-- crates/factum-rt: the runtime, a store of nodes with its indices, queries and review queue.
pub mod Storage
pub mod Permission
pub mod Subscription
pub mod Verifier
pub mod Store
pub mod Query
pub mod Review
