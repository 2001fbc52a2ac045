-- ===== src/Examples.antt =====
-- The theorems on concrete values, and small runs of the code.
pub mod Values
pub mod Jobs
pub mod Limits
pub mod Caches
pub mod Resident
pub mod Queue
pub mod Outputs
pub mod Journals
pub mod Wire
pub mod Directory
pub mod Registrations
pub mod Streams
pub mod Pointers
