-- ===== src/Checks/Objects.antt =====
-- Condition promises and state promises.
use jspro_cpp.Prelude.{◌≡◌, refl, Bool, true, false, none, some, [], ◌∷◌, arith}
use jspro_cpp.Runtime.Value.{void, fulfilled}
use jspro_cpp.Runtime.Code.{Code, Awaiter}
use jspro_cpp.Runtime.Cell.{blank, outcome}
use jspro_cpp.Runtime.Store.{Store}
use jspro_cpp.Runtime.Place.{whole}
use jspro_cpp.Machine.Exec.{Frame}
use jspro_cpp.Machine.Runs.{Runs}
use jspro_cpp.Sync.CvPromise.{CvPromise, fresh_cv, notify, assert_done}
use jspro_cpp.Sync.CvPromise.Waking.{Armed, notify_wakes}
use jspro_cpp.Sync.StatePromise.{StatePromise, is_done}
use jspro_cpp.Sync.StatePromise.Phases.{Phase, At}
use jspro_cpp.Sync.StatePromise.{state_new}
use jspro_cpp.Sync.StatePromise.Moves.{Goes}
use jspro_cpp.Sync.StatePromise.Refinement.{Operation, perform, finished_early, moves_refined}
use jspro_cpp.Sync.StatePromise
use jspro_cpp.Sync.StatePromise.{set_done}
use jspro_cpp.Sync.StatePromise.Order.{wake_order}

-- A condition promise that a function waits for.
abbrev waited_cv : Store CvPromise
waited_cv = record {
  next = 1;
  cell = λ _. record (blank true false) {
    awaiters = Awaiter.function 1 (Code.ret void) ∷ [];
    use_count = 1;
  };
  shared = fresh_cv 0;
}

waited_cv-Armed : Armed waited_cv 0
waited_cv-Armed = record {
  here = refl;
  quiet = record { known = omega arith; open_ = refl; unread = refl; idle = refl };
  undone = refl;
  unused = refl;
}

abbrev after_notify : Code CvPromise
after_notify = Code.ret void

notify_wakes_example :
    (s' : Store CvPromise) × Runs waited_cv (Frame.run none (notify after_notify) ∷ []) s' (
      Frame.loop 0 (Awaiter.function 1 (Code.ret void) ∷ [])
      ∷ Frame.run none (assert_done 0 after_notify)
      ∷ [])
    × (outcome (s'.cell 0) ≡ some (fulfilled void))
    × Armed s' 1
    × ((s'.cell 1).awaiters ≡ [])
notify_wakes_example = notify_wakes waited_cv 0 none after_notify [] waited_cv-Armed

-- A state promise in its initial phase.
abbrev new_state : Store StatePromise
new_state = record {
  next = 2;
  cell = λ _. blank true false;
  shared = record { ready = 0; done = 1 };
}

new_state-At : At new_state Phase.initial
new_state-At = (
  λ e. omega (arith, e),
  record {
    quiet = record { known = omega arith; open_ = refl; unread = refl; idle = refl };
    undone = refl;
    alone = refl;
  },
  record {
    quiet = record { known = omega arith; open_ = refl; unread = refl; idle = refl };
    undone = refl;
    alone = refl;
  },
)

moves_refined_example : Goes new_state (perform Operation.done_op) Phase.done
moves_refined_example =
    moves_refined Operation.done_op Phase.initial Phase.done new_state finished_early new_state-At

abbrev after_is_done : Bool → Code StatePromise
after_is_done b = Code.ret void

-- A state promise with somebody who waits for each of its promises.
abbrev waited_state : Store StatePromise
waited_state = record {
  next = 2;
  cell = λ _. record (blank true false) {
    awaiters = Awaiter.function 1 (Code.ret void) ∷ [];
    use_count = 1;
  };
  shared = record { ready = 0; done = 1 };
}

abbrev after_done : Code StatePromise
after_done = Code.ret void

wake_order_example :
    ((s' : Store StatePromise) × (k' : Code StatePromise) × Runs waited_state
        (Frame.run none (set_done after_done) ∷ [])
        s'
        (Frame.loop 1 (Awaiter.function 1 (Code.ret void) ∷ []) ∷ Frame.run none k' ∷ [])
      × (outcome (s'.cell 1) ≡ some (fulfilled void))
      × (outcome (s'.cell 0) ≡ none))
    × ((s' : Store StatePromise) × (k' : Code StatePromise) × Runs waited_state
          (Frame.run none (StatePromise.destroy after_done) ∷ [])
          s'
          (Frame.loop 0 (Awaiter.function 1 (Code.ret void) ∷ []) ∷ Frame.run none k' ∷ [])
        × (outcome (s'.cell 0) ≡ some (fulfilled void))
        × (outcome (s'.cell 1) ≡ none))
wake_order_example = wake_order waited_state none after_done [] (record {
  apart = λ e. omega (arith, e);
  ready_quiet = record { known = omega arith; open_ = refl; unread = refl; idle = refl };
  ready_undone = refl;
  done_quiet = record { known = omega arith; open_ = refl; unread = refl; idle = refl };
  done_undone = refl;
})
