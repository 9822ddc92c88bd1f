-- ===== src/Service.antt =====
-- authz_service: what stands between the network and the decision point.
pub mod Limiter
pub mod Http
pub mod Callers
pub mod References
pub mod Delegations
pub mod Authorize
pub mod Management
pub mod Idempotency
