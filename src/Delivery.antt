-- ===== src/Delivery.antt =====
-- The worker as a whole, as cmd/worker/main.go starts it: the poll loop, the lanes and the flush loop
-- side by side, and what of a fetched record is committed.
pub mod Totals
pub mod Worker
pub mod Outstanding
pub mod Interleaving
pub mod Revoked
pub mod Moves
pub mod Ledger
pub mod Entries
pub mod Calls
pub mod Invariant
pub mod Reachable
pub mod Commits
pub mod Sample
mod Tests
mod Runs
pub mod Queued
pub mod Draining
pub mod Shutdown
pub mod Line
pub mod Lines
pub mod Unheld
pub mod Order
pub mod Behind
pub mod Starts
