-- ===== src/Sync/StatePromise.antt =====
-- `StatePromise`. src/StatePromise.cpp, include/promise/StatePromise.h
pub mod Phases
pub mod Moves
pub mod Refinement
pub mod Order
use jspro_cpp.Prelude.{ℕ, Option, none, some, Bool, true, false, ◌&&◌, List, [], ◌∷◌, if◌then◌else◌}
use jspro_cpp.Runtime.Value.{Value, void, state_end, Outcome, fulfilled, rejected}
use jspro_cpp.Runtime.Code.{Code}
use jspro_cpp.Combinators.Fun.{plain}
use jspro_cpp.Combinators.Then.{then_}
use jspro_cpp.Combinators.Race.{race}
use jspro_cpp.Combinators.Wrapper.{is_resolved}

-- The two promises; each is made with its handles, which go with it.
pub record StatePromise : Type 0 where
  pub ready : ℕ
  pub done : ℕ

unfoldable pub state_new : Code StatePromise → Code StatePromise
state_new k =
    Code.create λ r. Code.create λ d. Code.locked (λ _. record { ready = r; done = d }) λ _. k

abbrev pub this : (StatePromise → Code StatePromise) → Code StatePromise
this k = Code.locked (λ m. m) k

abbrev pub assert_pending : ℕ → Code StatePromise → Code StatePromise
assert_pending p k = Code.status p λ o. elim o [ none ↦ k | some _ ↦ Code.abort ]

unfoldable pub set_ready : Code StatePromise → Code StatePromise
set_ready k =
    this λ m. assert_pending m.ready (assert_pending m.done (Code.resolve m.ready void λ _. k))

unfoldable pub set_done : Code StatePromise → Code StatePromise
set_done k = this λ m. Code.status m.ready λ o.
    Code.resolve m.done void λ _. elim o [ some _ ↦ k | none ↦ Code.resolve m.ready void λ _. k ]

-- The destructor.
unfoldable pub destroy : Code StatePromise → Code StatePromise
destroy k = this λ m. Code.resolve m.ready void λ _. Code.resolve m.done void λ _. k

unfoldable pub is_done : (Bool → Code StatePromise) → Code StatePromise
is_done k = this λ m. Code.status m.done λ d. elim (is_resolved d) [
  | false ↦ k false
  | true ↦ Code.status m.ready λ r. k (is_resolved r)
]

unfoldable pub reset : Code StatePromise → Code StatePromise
reset k = this λ m. Code.status m.done λ d. elim (is_resolved d) [
  | true ↦ Code.status m.ready λ r. elim (is_resolved r) [
    | false ↦ Code.abort
    | true ↦ Code.create λ r'.
        Code.locked (λ n. record n { ready = r' })
          λ _. Code.create λ d'. Code.locked (λ n. record n { done = d' }) λ _. k
  ]
  | false ↦ Code.status m.ready λ r. elim (is_resolved r) [
    | false ↦ k
    | true ↦ Code.create λ r'. Code.locked (λ n. record n { ready = r' }) λ _. k
  ]
]

unfoldable pub wait_ready : (ℕ → Code StatePromise) → Code StatePromise
wait_ready k = this λ m. k m.ready

unfoldable pub wait_done : (ℕ → Code StatePromise) → Code StatePromise
wait_done k = this λ m. k m.done

-- `done_promise_.Then([] { throw End(); })`
unfoldable pub wait_done_with_reject : (ℕ → Code StatePromise) → Code StatePromise
wait_done_with_reject k = this λ m. then_ true m.done (plain λ _. Code.throw state_end) k

-- `promise::Race(WaitDone(), WaitReady())`
unfoldable pub wait : (ℕ → Code StatePromise) → Code StatePromise
wait k = wait_done λ d. wait_ready λ r.
    race (record { is_void = true; promise = d } ∷ record { is_void = true; promise = r } ∷ []) k

unfoldable pub wait_with_reject : (ℕ → Code StatePromise) → Code StatePromise
wait_with_reject k = wait_done_with_reject λ d. wait_ready λ r.
    race (record { is_void = true; promise = d } ∷ record { is_void = true; promise = r } ∷ []) k
