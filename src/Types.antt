-- ===== src/Types.antt =====
-- C++ types, and what the templates of the library compute with them.
pub mod CppType
pub mod Traits
pub mod Returns
pub mod Unique
pub mod Typing
pub mod Gathered
pub mod Deduction
