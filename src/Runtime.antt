-- ===== src/Runtime.antt =====
-- The shared state of the library: values, code, promise details, and the store that holds them.
pub mod Value
pub mod Code
pub mod Cell
pub mod Store
pub mod Place
pub mod Wakes
pub mod CellInvariant
