-- ===== src/Ingest.antt =====
-- The ingest package: real-world logs, deploy logs and metrics become canonical rows.
pub mod Runtime
pub mod Normalize
pub mod Metrics
pub mod Lines
pub mod Sources
pub mod Deploys
