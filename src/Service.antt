-- ===== src/Service.antt =====
-- The service package: ingress, the worker pool, and the request checks.
pub mod Ingress
pub mod Pool
pub mod Requests
pub mod Endpoints
pub mod Operator
