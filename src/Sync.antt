-- ===== src/Sync.antt =====
-- internal/sync.
pub mod Queue
pub mod Engine
mod Examples
