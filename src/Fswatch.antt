-- ===== src/Fswatch.antt =====
-- internal/fswatch: the watcher of the sync root.
pub mod Ops
pub mod Paths
pub mod Walk
pub mod Watcher
pub mod Examples
