-- ===== src/Tests.antt =====
-- Concrete inputs at which the theorems apply.
mod Samples
mod Agent
mod Ingest
mod Output
mod Evals
mod Servers
mod Service
mod Orchestrator
