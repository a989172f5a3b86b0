-- ===== src/Checks.antt =====
-- Concrete programs, and the theorems at them.
mod Stores
mod Safety
mod Chains
mod Async
mod Mutexes
mod Objects
mod Pools
mod Progress
mod Typing
mod Leaks
mod Races
mod Guards
