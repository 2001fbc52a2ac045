-- ===== src/Protocol.antt =====
-- crates/nagisalake-protocol: the control messages between a Hub and its Workers.
pub mod Float
pub mod Json
pub mod Messages
pub mod Equality
pub mod Validate
