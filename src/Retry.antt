-- ===== src/Retry.antt =====
-- internal/retry: the retry envelope, its publication with a backoff, and the scheduler.
pub mod Envelope
pub mod RoundTrip
pub mod ScheduleRedis
pub mod Scheduler
pub mod Cycle
pub mod Handover
pub mod Callback
pub mod Waiting
pub mod Fleet
pub mod SingleClaim
pub mod Publisher
pub mod Backoff
mod Tests
mod Runs
mod Contention
