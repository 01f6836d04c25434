-- ===== src/Latent/Floats.antt =====
-- The operations on f32 that crates/factum-l uses besides those of the platform.
use factum.Prelude.{ℕ}
use factum.Core.Platform.{Platform}

-- `as f32`, the quotient, and `round` with `as usize`, which takes numbers below zero and NaN to 0.
pub record Floats (p : Platform) : Type 0 where
  pub of_usize : ℕ → p.F32
  pub div : p.F32 → p.F32 → p.F32
  pub round_usize : p.F32 → ℕ
