-- ===== src/WorkerPool.antt =====
-- internal/workerpool/pool.go: bounded lanes, one to each group of affinity keys.
pub mod Hash
pub mod Pool
pub mod System
pub mod Order
mod Tests
