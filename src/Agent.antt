-- ===== src/Agent.antt =====
-- The agent package: the diagnosis contract, its checks, the model providers and the loop.
pub mod Schema
pub mod Citations
pub mod Codec
pub mod Actions
pub mod Providers
pub mod Verifier
pub mod Timing
pub mod Loop
