-- ===== src/Hub.antt =====
-- apps/nagisalake-hub: the Hub, which keeps the directory of connected Workers and dispatches jobs.
pub mod Eviction
pub mod RateLimit
pub mod ReadCache
pub mod Jobs
pub mod Scheduler
pub mod Uploads
pub mod Sessions
pub mod WorkerIds
