-- ===== src/Combinators/Catch.antt =====
-- `Catch`. include/promise/details/Promise.inl, include/promise/core/concepts.inl
use jspro_cpp.Prelude.{ℕ, Bool, true, false, if◌then◌else◌}
use jspro_cpp.Runtime.Value.{Value, void, null_opt, engaged, Exn, Outcome, fulfilled, rejected}
use jspro_cpp.Runtime.Code.{Code, try_catch}
use jspro_cpp.Combinators.Fun.{Fun, done_void, make_promise, forward}

-- The argument of the handler: `std::exception_ptr`, or an exception type with the exceptions that
-- it matches and whether it is taken by reference.
pub data Caught : Type 0 where
  any : Caught
  typed : (Exn → Bool) → Bool → Caught

abbrev pub catches : Caught → Exn → Bool
catches any e = true
catches (typed t by_ref) e = t e

abbrev pub copies : Caught → Bool
copies any = false
copies (typed t by_ref) = by_ref

-- `CatchReturn`: how the value of the promise (void or not) and the value of the handler (void or
-- not) stand in the promise that `Catch` returns.
unfoldable pub passed_value : Bool → Bool → Value → Value
passed_value true true v = void
passed_value true false v = null_opt
passed_value false true v = engaged v
passed_value false false v = v

unfoldable pub handled_value : Bool → Bool → Value → Value
handled_value true true x = void
handled_value true false x = engaged x
handled_value false true x = null_opt
handled_value false false x = x

module _ {S : Type 0} where
  -- A coroutine's end with the outcome of the promise that it awaited.
  abbrev pub finish_with : Outcome → Code S
  finish_with (fulfilled v) = Code.ret v
  finish_with (rejected e) = Code.throw e

  -- The handler's promise; a handler that takes the exception by reference gets a copy that a
  -- further coroutine keeps.
  unfoldable pub handler_promise : Bool → Fun S Exn → Exn → (ℕ → Code S) → Code S
  handler_promise copy f e k =
      if copy
      then Code.start false (λ _. make_promise f e λ q. Code.co_await q finish_with) k
      else make_promise f e k

  unfoldable pub handle_exception : Bool → Bool → Caught → Fun S Exn → ℕ → Exn → Code S → Code S
  handle_exception t_void t2_void c (Fun.plain f) r e k =
      try_catch (f e) (λ x. Code.resolve r (handled_value t_void t2_void x) λ _. k)
        (λ e'. Code.reject r e' λ _. k)
  handle_exception t_void t2_void c f r e k =
      handler_promise (copies c) f e
        λ q. forward q (λ x. Code.resolve r (handled_value t_void t2_void x) λ _. done_void) r k

  unfoldable pub catch_body : Bool → Bool → Caught → Fun S Exn → ℕ → Outcome → Code S → Code S
  catch_body t_void t2_void c f r (fulfilled v) k =
      Code.resolve r (passed_value t_void t2_void v) λ _. k
  catch_body t_void t2_void c f r (rejected e) k =
      if catches c e then handle_exception t_void t2_void c f r e k else Code.reject r e λ _. k

  -- `Catch` on an lvalue handle.
  unfoldable pub catch_ : Bool → Bool → Caught → ℕ → Fun S Exn → (ℕ → Code S) → Code S
  catch_ t_void t2_void c p f k = Code.create λ r.
      Code.on_done p (Code.read p λ o. catch_body t_void t2_void c f r o done_void)
        (λ o. catch_body t_void t2_void c f r o (k r)) (λ _. k r)

  unfoldable pub catch_move : Bool → Bool → Caught → ℕ → Fun S Exn → (ℕ → Code S) → Code S
  catch_move t_void t2_void c p f k = catch_ t_void t2_void c p f λ r. Code.detach p (k r)
