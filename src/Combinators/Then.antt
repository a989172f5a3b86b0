-- ===== src/Combinators/Then.antt =====
-- `Then`, on a promise that is done and on one that is not. include/promise/details/Promise.inl
use jspro_cpp.Prelude.{ℕ, Bool, if◌then◌else◌}
use jspro_cpp.Runtime.Value.{Value, Outcome, fulfilled, rejected}
use jspro_cpp.Runtime.Code.{Code}
use jspro_cpp.Combinators.Fun.{
  Fun, done_void, reject_new, make_promise, then_plain, forward, resolving,
}

module _ {S : Type 0} where
  -- A promise-returning continuation, for a promise that is done. If it is a promise of void the
  -- shared lock is still held while the continuation starts.
  unfoldable pub then_promise_now : Bool → ℕ → Fun S Value → Outcome → (ℕ → Code S) → Code S
  then_promise_now is_void p f (rejected e) k = reject_new e k
  then_promise_now is_void p f (fulfilled v) k =
      if is_void
      then Code.lock_shared p (make_promise f v λ q. Code.unlock_shared p (k q))
      else make_promise f v k

  -- The awaiter that `Then` leaves on a pending promise, for the promise `r` that it returned.
  unfoldable pub then_promise_body : Fun S Value → ℕ → Outcome → Code S
  then_promise_body f r (rejected e) = reject_new e λ q. forward q (resolving r) r done_void
  then_promise_body f r (fulfilled v) = make_promise f v λ q. forward q (resolving r) r done_void

  unfoldable pub then_promise : Bool → ℕ → Fun S Value → (ℕ → Code S) → Code S
  then_promise is_void p f k =
      Code.on_done_or_create p (λ r. Code.read p λ o. then_promise_body f r o)
        (λ o. then_promise_now is_void p f o k) k

  -- `Then` on an lvalue handle.
  unfoldable pub then_ : Bool → ℕ → Fun S Value → (ℕ → Code S) → Code S
  then_ is_void p (Fun.plain f) k = then_plain p f k
  then_ is_void p f k = then_promise is_void p f k

  -- `Then` on an rvalue handle: the details are detached as the call returns.
  unfoldable pub then_move : Bool → ℕ → Fun S Value → (ℕ → Code S) → Code S
  then_move is_void p f k = then_ is_void p f λ r. Code.detach p (k r)
