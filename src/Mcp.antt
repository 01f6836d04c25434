-- ===== src/Mcp.antt =====
-- crates/factum-mcp: the server that gives agents the store and the review queue.
pub mod Json
pub mod Protocol
pub mod Params
pub mod Handler
pub mod Write
pub mod Assert
pub mod Search
pub mod Read
pub mod Review
pub mod Server
pub mod Serving
pub mod Answers
pub mod Laws
pub mod Reject
pub mod Facts
pub mod Upsert
