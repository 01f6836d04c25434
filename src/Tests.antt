-- ===== src/Tests.antt =====
-- Concrete stores and queues, on which the theorems are tried.
mod Data
mod Store
mod Parser
mod Codec
mod Query
mod Review
mod Sequiv
mod Mcp
