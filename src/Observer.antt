-- ===== src/Observer.antt =====
-- internal/observer: the sidecar that shows an agent's workspace.
pub mod Tree
pub mod GitStatus
pub mod DiffStat
pub mod Poller
pub mod Watcher
pub mod Content
