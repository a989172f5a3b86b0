-- ===== src/Combinators/Fun.antt =====
-- Callables, `MakePromise`, `Resolve`, `Reject`, and the plain chains that the library makes
-- itself. include/promise/details/helpers.inl, Promise.inl
use jspro_cpp.Prelude.{ℕ, true, false}
use jspro_cpp.Runtime.Value.{Value, void, Exn, Outcome, fulfilled, rejected}
use jspro_cpp.Runtime.Code.{Code, try_catch}

-- A callable with an argument of type `A`: one that returns a value, one that takes the `Resolve`
-- and `Reject` handles and returns nothing, a coroutine, and a resolver-style coroutine. The
-- handles are given by the number of their promise.
pub data Fun (S A : Type 0) : Type 0 where
  plain : (A → Code S) → Fun S A
  plain_resolver : (ℕ → A → Code S) → Fun S A
  coroutine : (A → Code S) → Fun S A
  resolver_coroutine : (ℕ → A → Code S) → Fun S A

module _ {S : Type 0} where
  abbrev pub done_void : Code S
  done_void = Code.ret void

  -- `Promise::Resolve` and `Promise::Reject`
  unfoldable pub resolve_new : Value → (ℕ → Code S) → Code S
  resolve_new v k = Code.create λ p. Code.resolve p v λ _. k p

  unfoldable pub reject_new : Exn → (ℕ → Code S) → Code S
  reject_new e k = Code.create λ p. Code.reject p e λ _. k p

  unfoldable pub make_promise : {A : Type 0} → Fun S A → A → (ℕ → Code S) → Code S
  make_promise (Fun.plain f) a k =
      Code.create
        λ p. try_catch (f a) (λ v. Code.resolve p v λ _. k p) (λ e. Code.reject p e λ _. k p)
  make_promise (Fun.plain_resolver f) a k =
      Code.create λ p. try_catch (f p a) (λ _. k p) (λ e. Code.reject p e λ _. k p)
  make_promise (Fun.coroutine f) a k = Code.start false (λ p. f a) k
  make_promise (Fun.resolver_coroutine f) a k = Code.start true (λ p. f p a) k

  -- What `Then` with a plain function does once the promise is done, towards the promise `r`.
  unfoldable pub then_body : (Value → Code S) → ℕ → Outcome → Code S → Code S
  then_body f r (rejected e) k = Code.reject r e λ _. k
  then_body f r (fulfilled v) k =
      try_catch (f v) (λ x. Code.resolve r x λ _. k) (λ e. Code.reject r e λ _. k)

  -- The same with a promise made on the spot.
  unfoldable pub then_now : (Value → Code S) → Outcome → (ℕ → Code S) → Code S
  then_now f (rejected e) k = reject_new e k
  then_now f (fulfilled v) k = try_catch (f v) (λ x. resolve_new x k) (λ e. reject_new e k)

  unfoldable pub then_plain : ℕ → (Value → Code S) → (ℕ → Code S) → Code S
  then_plain p f k =
      Code.on_done_or_create p (λ r. Code.read p λ o. then_body f r o done_void)
        (λ o. then_now f o k) k

  -- `Catch` with a plain function of the `exception_ptr` that returns nothing, on a promise of void.
  unfoldable pub catch_void_body : (Exn → Code S) → ℕ → Outcome → Code S → Code S
  catch_void_body f r (fulfilled v) k = Code.resolve r v λ _. k
  catch_void_body f r (rejected e) k =
      try_catch (f e) (λ _. Code.resolve r void λ _. k) (λ e'. Code.reject r e' λ _. k)

  unfoldable pub catch_void : ℕ → (Exn → Code S) → (ℕ → Code S) → Code S
  catch_void p f k = Code.create λ r.
      Code.on_done p (Code.read p λ o. catch_void_body f r o done_void)
        (λ o. catch_void_body f r o (k r)) (λ _. k r)

  -- `std::move(q).Then(…).Catch(… (*reject)(exception) …).Detach()`
  unfoldable pub forward : ℕ → (Value → Code S) → ℕ → Code S → Code S
  forward q f r k = then_plain q f λ q₁.
      Code.detach q (
        catch_void q₁ (λ e. Code.reject r e λ _. done_void) λ q₂. Code.detach q₁ (Code.detach q₂ k))

  -- A continuation that resolves `r` with a value, as it stands in the chains above.
  abbrev pub resolving : ℕ → Value → Code S
  resolving r v = Code.resolve r v λ _. done_void
