-- ===== src/Backend.antt =====
-- The backend: its stores, its HTTP handlers and its background jobs.
pub mod Files
pub mod Roles
pub mod Agents
pub mod Heartbeat
pub mod Handlers
