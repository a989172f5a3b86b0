-- ===== src/Checks/Pools.antt =====
-- A pool that has stopped, and a task of one that has not.
use jspro_cpp.Prelude.{ℕ, ◌≡◌, refl, arith, Bool, false, none, some, [], ◌∷◌}
use jspro_cpp.Runtime.Value.{num, void, user, queue_not_running, rejected}
use jspro_cpp.Runtime.Code.{Code}
use jspro_cpp.Runtime.Cell.{outcome}
use jspro_cpp.Runtime.Store.{Store, empty}
use jspro_cpp.Machine.Exec.{Frame}
use jspro_cpp.Machine.Runs.{Runs, stop}
use jspro_cpp.Combinators.Handles.{make_reject}
use jspro_cpp.Combinators.Laws.Refusing.{refusal, make_reject_late}
use jspro_cpp.Sync.MessageQueue.{proxy_call}
use jspro_cpp.Sync.MessageQueue.Refused.{proxy_refused}
use jspro_cpp.Checks.Stores.{done_store, seven, after}

-- A pool that takes no task.
abbrev stopped_post : Code ℕ → (Bool → Code ℕ) → Code ℕ
stopped_post t j = j false

abbrev new_store : Store ℕ
new_store = empty 0

abbrev sum : Code ℕ
sum = Code.ret (num 5)

proxy_refused_example :
    (s' : Store ℕ) × Runs new_store
      (Frame.run none (proxy_call stopped_post sum after) ∷ [])
      s'
      (Frame.run none (after 0) ∷ [])
    × (outcome (s'.cell 0) ≡ some (rejected queue_not_running))
    × ((s'.cell 0).running ≡ false)
proxy_refused_example = proxy_refused stopped_post new_store none sum after [] (λ s w t j gs. stop)

-- The strict form of `MakeReject`, on a promise that has a value.
make_reject_late_example :
    (s' : Store ℕ) × Runs
      (done_store seven)
      (Frame.run none (make_reject false 0 (user 1) λ b. Code.ret void) ∷ [])
      s'
      (Frame.run none (refusal false λ b. Code.ret void) ∷ [])
    × ((q : ℕ) → outcome (s'.cell q) ≡ outcome ((done_store seven).cell q))
make_reject_late_example =
    make_reject_late (done_store seven) none false 0 (user 1) (λ b. Code.ret void) [] (omega arith)
      refl
