-- ===== src/Thread.antt =====
-- packages/sage_harness/sage_harness/state.py: the reducers that merge an update into the durable
-- state of a thread.
pub mod Update
pub mod Binding
pub mod Goal
pub mod Keyed
pub mod Unique
pub mod Ended
pub mod Skills
pub mod Tests
pub mod Evidence
pub mod Order
pub mod Tools
