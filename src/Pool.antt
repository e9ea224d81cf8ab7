-- ===== src/Pool.antt =====
-- src/worker/worker-pool.ts: the pool of workers, as a machine whose steps are the stretches of code
-- that run between two waits.
pub mod State
pub mod Reserve
pub mod Acquire
pub mod Machine
pub mod Inputs
pub mod Kept
pub mod Bounds
pub mod Stopping
pub mod Selection
pub mod Eviction
pub mod Crashes
mod Tests
