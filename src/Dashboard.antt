-- ===== src/Dashboard.antt =====
-- dashboard/src/lib.rs: the cache of aggregated frames behind the JSON handlers.
pub mod Frames
pub mod Cache
pub mod Disk
pub mod Telemetry
pub mod Stores
pub mod Queries
pub mod Newest
pub mod Latest
pub mod Shutdown
mod Tests
