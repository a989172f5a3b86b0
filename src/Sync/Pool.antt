-- ===== src/Sync/Pool.antt =====
-- `Pool`: functions that a thread of a pool runs. The pool itself is a parameter: `post` hands it a
-- task and goes on with whether the pool took it. include/promise/Pool.h
pub mod Tasks
use jspro_cpp.Prelude.{ℕ, Bool, if◌then◌else◌}
use jspro_cpp.Runtime.Value.{void, queue_stopped}
use jspro_cpp.Runtime.Code.{Code, try_catch}
use jspro_cpp.Combinators.Fun.{done_void}

module _ {S : Type 0} where
  -- The tasks: for no function, for a function, and for one that takes the handles.
  unfoldable pub wake_task : ℕ → Code S
  wake_task p = Code.wait_awaited p 0 (Code.resolve p void λ _. done_void)

  unfoldable pub call_task : Code S → ℕ → Code S
  call_task f p =
      try_catch f (λ v. Code.resolve p v λ _. done_void) (λ e. Code.reject p e λ _. done_void)

  unfoldable pub resolver_task : (ℕ → Code S) → ℕ → Code S
  resolver_task f p = try_catch (f p) (λ _. done_void) (λ e. Code.reject p e λ _. done_void)

  module _ (post : Code S → (Bool → Code S) → Code S) where
    -- The new promise, rejected if the pool does not take the task.
    unfoldable pub post_task : (ℕ → Code S) → (ℕ → Code S) → Code S
    post_task task k = Code.create λ p.
        post (task p) λ dispatched. if dispatched then k p else Code.reject p queue_stopped λ _. k p

    unfoldable pub dispatch_empty : (ℕ → Code S) → Code S
    dispatch_empty k = post_task wake_task k

    unfoldable pub dispatch : Code S → (ℕ → Code S) → Code S
    dispatch f k = post_task (call_task f) k

    unfoldable pub dispatch_resolver : (ℕ → Code S) → (ℕ → Code S) → Code S
    dispatch_resolver f k = post_task (resolver_task f) k
