-- ===== src/Combinators.antt =====
-- `Then`, `Catch`, `Finally`, `Race`, `All` and `MakePromise`, as code over the critical sections.
pub mod Fun
pub mod Then
pub mod Catch
pub mod Finally
pub mod Race
pub mod All
pub mod Spec
pub mod Chain
pub mod Wrapper
pub mod Handles
pub mod AllTuple
pub mod Laws
