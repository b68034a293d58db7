-- ===== src/Migrater.antt =====
-- src/migrater: the rate-limited copy, the buffer of progress events, and the service.
pub mod Progress
pub mod TokenBucket
pub mod Metrics
pub mod State
pub mod HeartbeatStream
pub mod Log
pub mod Service
