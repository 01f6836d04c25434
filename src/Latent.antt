-- ===== src/Latent.antt =====
-- crates/factum-l: the latent encodings.
pub mod Floats
pub mod PackedCodec
pub mod Sequiv
