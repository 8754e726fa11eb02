-- ===== src/Engine.antt =====
-- src/engine: the synchronisation engine.
pub mod Summary
pub mod Changes
pub mod Grouping
pub mod Ordering
pub mod Setup
pub mod Plan
pub mod Apply
pub mod Sync
pub mod Stream
pub mod Backfill
pub mod Backup
mod Examples
