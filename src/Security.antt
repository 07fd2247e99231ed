-- ===== src/Security.antt =====
-- include/mcp/security: the configuration and the three per-IP guards.
pub mod Policy
pub mod Breaker
pub mod Filter
pub mod Limiter
