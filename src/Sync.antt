-- ===== src/Sync.antt =====
-- backend/internal/sync: the reconciliation engine, in its parts.
pub mod Ops
pub mod Keys
pub mod Plan
pub mod Engine
pub mod Transfer
pub mod Snapshot
pub mod Reconcile
pub mod Throttle
pub mod Watcher
