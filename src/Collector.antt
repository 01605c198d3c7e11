-- ===== src/Collector.antt =====
-- The event collector: internal/event-collector.
pub mod Pods
pub mod Webhook
