-- ===== src/Sync.antt =====
-- core/textile/sync: the Textile synchronizer.
pub mod Task
pub mod Queue
pub mod Deps
pub mod Notify
pub mod Mirror
pub mod Pinning
pub mod Restore
pub mod Retries
pub mod Executors
pub mod Loop
pub mod Sound
pub mod Stored
pub mod Held
pub mod Steady
pub mod Kept
pub mod Machine
pub mod Exclusive
pub mod Announced
pub mod Bounded
mod Tests
