-- ===== src/Core.antt =====
-- crates/factum-core: the data of knowledge nodes and what is computed from it.
pub mod Platform
pub mod Types
pub mod PermissionTag
pub mod Decimal
pub mod Lexer
pub mod Parser
pub mod Morphemes
pub mod Canonical
pub mod Calibration
pub mod Compact
