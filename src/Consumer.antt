-- ===== src/Consumer.antt =====
-- internal/consumer: the poll loop's dispatch, and the rebalance callbacks.
pub mod Rebalance
pub mod Revocation
pub mod Fallback
pub mod Dispatch
pub mod Pools
pub mod Polling
pub mod Rounds
pub mod Shutdown
pub mod Topics
pub mod Outcomes
pub mod Settlement
pub mod Returns
pub mod Job
mod Tests
mod Runs
