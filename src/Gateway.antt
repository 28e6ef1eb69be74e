-- ===== src/Gateway.antt =====
-- gateway/src: the readings, the shared buffer and its manager, the rates and the aggregation.
pub mod Readings
pub mod Buffer
pub mod Manager
pub mod Reader
pub mod Rates
pub mod Stats
pub mod Aggregation
pub mod Main
pub mod Pipeline
pub mod Monitor
pub mod Storage
pub mod Benchmark
mod Tests
