-- ===== src/Loop.antt =====
-- core/loop_harness/state.py: the SQLite state of the repair loop, with its leases, runs, settings
-- and pull requests.
pub mod Tables
pub mod Lease
pub mod Runs
pub mod PullRequests
pub mod Requests
pub mod Fencing
pub mod Gates
pub mod Pause
pub mod Tests
