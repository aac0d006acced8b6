-- ===== src/Policy.antt =====
-- core/loop_harness/policy.py: what the repair loop may change, decided from paths and sizes.
pub mod Paths
pub mod Rules
pub mod Bounds
pub mod Tests
