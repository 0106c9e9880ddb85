-- ===== src/Storage.antt =====
-- internal/storage over SQLite, which is a parameter (`Engine`) with documented laws.
pub mod Sql
pub mod Times
pub mod Opening
pub mod Records
pub mod Accounts
pub mod Tokens
pub mod SyncStates
pub mod Prefixes
pub mod Files
pub mod Folders
pub mod Drives
pub mod Pending
pub mod Cascade
pub mod Falling
pub mod Schema
pub mod Migrations
