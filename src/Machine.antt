-- ===== src/Machine.antt =====
-- Threads that run code on the store. Settling a promise runs its awaiters on the stack of the
-- thread that settles it; threads interleave at critical sections.
pub mod Exec
pub mod Threads
pub mod Stepped
pub mod Settling
pub mod Kept
pub mod Steps
pub mod Moved
pub mod Invariant
pub mod Runs
pub mod Settled
pub mod Returns
pub mod Unsettled
pub mod Safety
pub mod Delivery
pub mod Detached
pub mod Coroutine
pub mod Progress
pub mod Waking
