-- ===== src/Journal.antt =====
-- core/coding/persistence/session_event_journal.py: the SQLite journal of a session's events, with
-- the lease of its one active run.
pub mod Rows
pub mod Input
pub mod Lease
pub mod Writes
pub mod Approvals
pub mod Runs
pub mod Recovery
pub mod Reads
pub mod Requests
pub mod Cases
pub mod History
pub mod Valid
pub mod Granted
pub mod Fencing
pub mod Ended
pub mod Paging
pub mod Returns
mod Tests
