-- ===== src/Indexing.antt =====
-- The indexing domain (domain/indexing): values, the task's life cycle, pairs, the sync planner.
pub mod Values
pub mod Fingerprint
pub mod Event
pub mod Task
pub mod Pair
pub mod Planner
