-- ===== src/Journal.antt =====
-- crates/nagisalake-journal: the Worker's durable record of its jobs.
pub mod State
pub mod Spec
pub mod Memory
pub mod Sqlite
pub mod Equivalence
