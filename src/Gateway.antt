-- ===== src/Gateway.antt =====
-- The gateway in front of the LLM proxy and Gitea: internal/gateway.
pub mod Bucket
pub mod Limiter
pub mod Audit
pub mod Auth
pub mod Proxy
