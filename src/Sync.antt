-- ===== src/Sync.antt =====
-- core/knowledge/jobs/sync.py: the difference between a scan of a source and its last manifest.
pub mod Sorted
pub mod Changes
pub mod Rows
pub mod Target
pub mod Roundtrip
pub mod Tests
