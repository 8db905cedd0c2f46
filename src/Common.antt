-- ===== src/Common.antt =====
-- packages/common/eventmesh_common: the code that the services share.
pub mod Enums
pub mod CircuitBreaker
pub mod Retry
pub mod Classify
pub mod Ssrf
