-- ===== src/Operator.antt =====
-- The Kubernetes operator: internal/operator.
pub mod Types
pub mod Objects
pub mod Reconciler
pub mod Scheduler
pub mod Controller
pub mod RoleWatcher
