-- ===== src/Sync/MessageQueue.antt =====
-- `MessageQueue`, a pool of one thread, and the proxy that calls functions on an object's queue.
-- The queue of the object is a parameter: `ensure` hands it a task and goes on with whether the
-- queue took it. include/promise/MessageQueue.h, include/promise/core/MessageQueueProxy.inl
pub mod Refused
use jspro_cpp.Prelude.{ℕ, Bool, true, if◌then◌else◌}
use jspro_cpp.Runtime.Value.{void, queue_not_running}
use jspro_cpp.Runtime.Code.{Code, try_catch}
use jspro_cpp.Combinators.Fun.{Fun, done_void, make_promise}
use jspro_cpp.Combinators.Handles.{make_reject}
use jspro_cpp.Sync.Pool.{dispatch}

module _ {S : Type 0} where
  -- `MessageQueue::Ensure` of a function, over the pool.
  unfoldable pub ensure_dispatched :
      (Code S → (Bool → Code S) → Code S) → Code S → (ℕ → Code S) → Code S
  ensure_dispatched post f k = dispatch post f k

  -- The task of the proxy: the call on the object, with its result for the promise `p`.
  unfoldable pub proxy_task : Code S → ℕ → Code S
  proxy_task callback p =
      try_catch callback (λ v. Code.resolve p v λ _. done_void)
        (λ e. Code.reject p e λ _. done_void)

  -- The resolver coroutine of the proxy's call.
  unfoldable pub proxy_body : (Code S → (Bool → Code S) → Code S) → Code S → ℕ → Code S
  proxy_body ensure callback p = ensure (proxy_task callback p) λ dispatched.
      if dispatched then Code.ret void else make_reject true p queue_not_running λ _. Code.ret void

  unfoldable pub proxy_call : (Code S → (Bool → Code S) → Code S) → Code S → (ℕ → Code S) → Code S
  proxy_call ensure callback k =
      make_promise (Fun.resolver_coroutine λ p _. proxy_body ensure callback p) void k
