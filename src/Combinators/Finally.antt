-- ===== src/Combinators/Finally.antt =====
-- `Finally`. include/promise/details/Promise.inl
use jspro_cpp.Prelude.{ℕ, Bool, if◌then◌else◌}
use jspro_cpp.Runtime.Value.{Value, void, Exn, Outcome, fulfilled, rejected}
use jspro_cpp.Runtime.Code.{Code, try_catch}
use jspro_cpp.Combinators.Fun.{Fun, done_void, make_promise, forward, resolving}

module _ {S : Type 0} where
  unfoldable pub apply_value : Fun S Value → ℕ → Value → Code S → Code S
  apply_value (Fun.plain f) r v k =
      try_catch (f void) (λ _. Code.resolve r v λ _. k) (λ e. Code.reject r e λ _. k)
  apply_value f r v k = make_promise f void λ q. forward q (λ _. resolving r v) r k

  unfoldable pub apply_exception : Fun S Value → ℕ → Exn → Code S → Code S
  apply_exception (Fun.plain f) r e k =
      try_catch (f void) (λ _. Code.reject r e λ _. k) (λ e'. Code.reject r e' λ _. k)
  apply_exception f r e k =
      make_promise f void λ q. forward q (λ _. Code.reject r e λ _. done_void) r k

  unfoldable pub finally_body : Fun S Value → ℕ → Outcome → Code S → Code S
  finally_body f r (fulfilled v) k = apply_value f r v k
  finally_body f r (rejected e) k = apply_exception f r e k

  -- On a promise that is done. If it is a fulfilled promise of void the shared lock is still held
  -- while the function runs.
  unfoldable pub finally_now : Bool → ℕ → Fun S Value → ℕ → Outcome → Code S → Code S
  finally_now is_void p f r (fulfilled v) k =
      if is_void
      then Code.lock_shared p (apply_value f r v (Code.unlock_shared p k))
      else apply_value f r v k
  finally_now is_void p f r (rejected e) k = apply_exception f r e k

  -- `Finally` on an lvalue handle.
  unfoldable pub finally_ : Bool → ℕ → Fun S Value → (ℕ → Code S) → Code S
  finally_ is_void p f k = Code.create λ r.
      Code.on_done p (Code.read p λ o. finally_body f r o done_void)
        (λ o. finally_now is_void p f r o (k r)) (λ _. k r)

  unfoldable pub finally_move : Bool → ℕ → Fun S Value → (ℕ → Code S) → Code S
  finally_move is_void p f k = finally_ is_void p f λ r. Code.detach p (k r)
