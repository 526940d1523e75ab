-- ===== src/OffsetManager.antt =====
-- internal/offsetmanager/manager.go: the single authority for committing offsets.
pub mod Partition
pub mod Manager
pub mod Refinement
pub mod Session
pub mod Drain
pub mod Waiting
mod Tests
pub mod Keyed
pub mod FlushAll
pub mod Invariant
pub mod Cursor
pub mod Flush
pub mod Preservation
pub mod Safety
pub mod Progress
