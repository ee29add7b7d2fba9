-- ===== src/Evals.antt =====
-- The evaluation harness: the judge of a diagnosis, and the audit of a transcript.
pub mod Audits
pub mod Judge
