-- ===== src/Servers.antt =====
-- The servers package: the filters that the evidence tools share.
pub mod Filters
pub mod Tools
