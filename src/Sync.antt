-- ===== src/Sync.antt =====
-- The synchronisation primitives: `Mutex` and `LockGuard`, `CVPromise`, `StatePromise`, `Pool` and
-- `MessageQueue`.
pub mod Mutex
pub mod CvPromise
pub mod StatePromise
pub mod Pool
pub mod MessageQueue
pub mod CvGuard
