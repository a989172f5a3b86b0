-- ===== src/Combinators/Wrapper.antt =====
-- `WPromise`, the handle that user code holds: each member takes a lock or calls the details.
-- include/promise/details/WPromise.inl
use jspro_cpp.Prelude.{ℕ, Bool, true, false, Option, none, some, if◌then◌else◌}
use jspro_cpp.Runtime.Value.{Value, Exn, Outcome, fulfilled, rejected}
use jspro_cpp.Runtime.Code.{Code}
use jspro_cpp.Combinators.Fun.{Fun}
use jspro_cpp.Combinators.Then.{then_, then_move}
use jspro_cpp.Combinators.Catch.{Caught, catch_, catch_move}
use jspro_cpp.Combinators.Finally.{finally_, finally_move}

unfoldable pub is_resolved : Option Outcome → Bool
is_resolved (some (fulfilled v)) = true
is_resolved (some (rejected e)) = false
is_resolved none = false

unfoldable pub is_rejected : Option Outcome → Bool
is_rejected (some (fulfilled v)) = false
is_rejected (some (rejected e)) = true
is_rejected none = false

module _ {S : Type 0} where
  -- The destructor of a handle that was not moved from.
  unfoldable pub drop_handle : ℕ → Code S → Code S
  drop_handle p k = Code.status p λ o. elim o [ some _ ↦ k | none ↦ Code.wait_done p k ]

  -- `co_await`
  unfoldable pub await_value : ℕ → (Value → Code S) → Code S
  await_value p k = Code.co_await p λ o. elim o [ fulfilled v ↦ k v | rejected e ↦ Code.throw e ]

  unfoldable pub ask_done : ℕ → (Bool → Code S) → Code S
  ask_done p k = Code.status p λ o. elim o [ some _ ↦ k true | none ↦ k false ]

  unfoldable pub ask_resolved : ℕ → (Bool → Code S) → Code S
  ask_resolved p k = Code.status p λ o. k (is_resolved o)

  unfoldable pub ask_rejected : ℕ → (Bool → Code S) → Code S
  ask_rejected p k = Code.status p λ o. k (is_rejected o)

  -- `Value`, which asserts that the promise is done and has a value.
  unfoldable pub ask_value : ℕ → (Value → Code S) → Code S
  ask_value p k = Code.status p λ o. elim o [
    | none ↦ Code.abort
    | some q ↦ elim q [ fulfilled v ↦ k v | rejected e ↦ Code.abort ]
  ]

  -- `Exception`, which is null if the promise was resolved.
  unfoldable pub ask_exception : ℕ → (Option Exn → Code S) → Code S
  ask_exception p k = Code.status p λ o. elim o [
    | none ↦ Code.abort
    | some q ↦ elim q [ fulfilled v ↦ k none | rejected e ↦ k (some e) ]
  ]

  unfoldable pub wait_for_done : ℕ → Code S → Code S
  wait_for_done p k = Code.wait_done p k

  -- The chaining calls; an rvalue handle gives up the details.
  unfoldable pub chain_then : Bool → Bool → ℕ → Fun S Value → (ℕ → Code S) → Code S
  chain_then rvalue is_void p f k = if rvalue then then_move is_void p f k else then_ is_void p f k

  unfoldable pub chain_catch : Bool → Bool → Bool → Caught → ℕ → Fun S Exn → (ℕ → Code S) → Code S
  chain_catch rvalue t_void t2_void c p f k =
      if rvalue then catch_move t_void t2_void c p f k else catch_ t_void t2_void c p f k

  unfoldable pub chain_finally : Bool → Bool → ℕ → Fun S Value → (ℕ → Code S) → Code S
  chain_finally rvalue is_void p f k =
      if rvalue then finally_move is_void p f k else finally_ is_void p f k

  unfoldable pub detach_handle : ℕ → Code S → Code S
  detach_handle p k = Code.detach p k
