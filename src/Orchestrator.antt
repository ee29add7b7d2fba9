-- ===== src/Orchestrator.antt =====
-- The orchestrator package: an investigation, the review gate, and the resolution check.
pub mod Investigate
pub mod Review
pub mod Resolution
pub mod ToolsFactory
