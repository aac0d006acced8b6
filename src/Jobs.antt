-- ===== src/Jobs.antt =====
-- core/knowledge/jobs/repository.py: the PostgreSQL state of knowledge imports, as a state machine of
-- jobs and their items.
pub mod Tables
pub mod Refresh
pub mod Changes
pub mod Methods
pub mod Machine
pub mod Requests
pub mod Changed
pub mod Kept
pub mod Refreshed
pub mod Edges
pub mod Moved
pub mod Called
pub mod Selected
pub mod OneItem
pub mod ManyItems
pub mod Stepped
pub mod Life
pub mod JobRows
pub mod Stopped
pub mod Keys
pub mod Once
pub mod Tally
pub mod Over
pub mod Leases
pub mod Endings
pub mod Cancelling
pub mod Claims
pub mod Served
pub mod Right
pub mod Cancelled
pub mod Tests
pub mod Creation
pub mod Created
pub mod Opened
pub mod Finalized
pub mod Started
pub mod Held
pub mod Attempts
pub mod Enabled
