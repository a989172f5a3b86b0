-- ===== src/Combinators/Handles.antt =====
-- Further ways to make promises and to settle them, and the counters of a promise.
-- include/promise/details/helpers.inl, Reject.inl, WPromise.inl
use jspro_cpp.Prelude.{ℕ, Bool, true, false, Option, none, some, if◌then◌else◌}
use jspro_cpp.Runtime.Value.{Value, Exn, already_rejected}
use jspro_cpp.Runtime.Code.{Code}
use jspro_cpp.Combinators.Fun.{resolve_new, reject_new}
use jspro_cpp.Combinators.Race.{race_one}

module _ {S : Type 0} where
  -- `Reject::Apply`: the exception that was made of the arguments.
  unfoldable pub apply_reject : ℕ → Exn → (Bool → Code S) → Code S
  apply_reject p e k = Code.reject p e k

  -- `MakeReject`: without `RELAXED` a call that comes too late throws.
  unfoldable pub make_reject : Bool → ℕ → Exn → (Bool → Code S) → Code S
  make_reject relaxed p e k =
      apply_reject p e
        λ done. if done then k true else if relaxed then k false else Code.throw already_rejected

  -- `MakeRPromise`: the coroutine of a resolver promise, and the handles for the caller too.
  unfoldable pub make_r_promise : {A : Type 0} → (ℕ → A → Code S) → A → (ℕ → Code S) → Code S
  make_r_promise f a k = Code.start true (λ p. f p a) k

  -- `Create`
  unfoldable pub create_handles : (ℕ → Code S) → Code S
  create_handles k = Code.create k

  -- `WPromise::Resolve` and `WPromise::Reject`
  unfoldable pub resolved_promise : Value → (ℕ → Code S) → Code S
  resolved_promise v k = resolve_new v k

  unfoldable pub rejected_promise : Exn → (ℕ → Code S) → Code S
  rejected_promise e k = reject_new e k

  -- `WPromise::Awaiters`, under its shared lock, and `WPromise::UseCount`.
  unfoldable pub count_awaiters : ℕ → (ℕ → Code S) → Code S
  count_awaiters p k = Code.lock_shared p (Code.read_counts p λ n uses. Code.unlock_shared p (k n))

  unfoldable pub count_uses : ℕ → (ℕ → Code S) → Code S
  count_uses p k = Code.read_counts p λ n uses. k uses

  -- `WPromise::WaitAwaited`, from the count that is given or from the present one.
  unfoldable pub wait_for_awaited : ℕ → Option ℕ → Code S → Code S
  wait_for_awaited p (some current_count) k = Code.wait_awaited p current_count k
  wait_for_awaited p none k = Code.read_counts p λ n uses. Code.wait_awaited p uses k

  -- `WPromise::Race` with the race promise so far; an rvalue handle gives up the details.
  unfoldable pub chain_race : Bool → (Value → Value) → Bool → ℕ → ℕ → ℕ → (ℕ → Code S) → Code S
  chain_race rvalue convert race_void p current r k =
      race_one convert race_void p current r
        λ next. if rvalue then Code.detach p (k next) else k next
