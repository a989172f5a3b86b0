-- ===== src/Checks/Progress.antt =====
-- Threads that wait for a promise and go on.
use jspro_cpp.Prelude.{
  ℕ, ◌≤◌, ◌≡◌, refl, true, false, none, some, List, [], ◌∷◌, ◌++◌, length, arith, lt→ltb,
}
use jspro_cpp.Runtime.Value.{num, void, Outcome, fulfilled}
use jspro_cpp.Runtime.Code.{Code, Awaiter}
use jspro_cpp.Runtime.Cell.{Condition, blank, outcome, await_coroutine, settle, on_resolved}
use jspro_cpp.Runtime.CellInvariant.{IdsFrom}
use jspro_cpp.Machine.Exec.{
  Frame, exec, exec_code, exec_loop, suspend_or_resume, read_outcome, leave, leave_function,
}
use jspro_cpp.Machine.Threads.{schedule, turn, turn_at, step}
use jspro_cpp.Runtime.Store.{Store, write}
use jspro_cpp.Machine.Runs.{Runs, stop, next}
use jspro_cpp.Machine.Settled.{Quiet, report, reported, reported-outcome, reported-next}
use jspro_cpp.Machine.Waking.{Ends, nobody, first_then, settling_ends}
use jspro_cpp.Machine.Safety.{reached}
use jspro_cpp.Checks.Stores.{pending_store}
use jspro_cpp.Machine.Progress.{awaiters_bounded, resume-step, resumed_goes_on, wait_released}

abbrev resumed : Outcome → Code ℕ
resumed o = Code.ret void

-- One thread makes a promise and waits for it with `co_await`, one resolves it, one blocks.
abbrev waiting_for : List (Code ℕ)
waiting_for =
    Code.create (λ p. Code.co_await p resumed)
    ∷ (Code.resolve 0 (num 7) λ _. Code.ret void)
    ∷ Code.wait_done 0 (Code.ret void)
    ∷ []

awaiters_bounded_example :
    let c = (reached 0 waiting_for (0 ∷ 0 ∷ [])).store.cell 0 in
    (length c.awaiters ≤ c.use_count) × (c.use_count ≤ 2) × IdsFrom 0 c.awaiters c.use_count
awaiters_bounded_example = awaiters_bounded 0 waiting_for (0 ∷ 0 ∷ []) 0

-- The second thread has settled the promise and resumed the coroutine.
abbrev until_resumed : List ℕ
until_resumed = 0 ∷ 0 ∷ 1 ∷ 1 ∷ 1 ∷ []

resumed_goes_on_example :
    (o : Outcome) × (outcome ((reached 0 waiting_for until_resumed).store.cell 0) ≡ some o)
    × ((turn 1 (reached 0 waiting_for until_resumed)).threads
        ≡ ([] ∷ [])
          ++ ((Frame.run none (resumed o) ∷ Frame.loop 0 [] ∷ Frame.run none (Code.ret void) ∷ [])
              ∷ (Frame.run none (Code.wait_done 0 (Code.ret void)) ∷ [])
              ∷ []))
unfolding schedule turn turn_at step exec exec_code exec_loop suspend_or_resume await_coroutine
    settle on_resolved
resumed_goes_on_example =
    resumed_goes_on 0 waiting_for until_resumed none 0 resumed
      (Frame.loop 0 [] ∷ Frame.run none (Code.ret void) ∷ []) ([] ∷ [])
      ((Frame.run none (Code.wait_done 0 (Code.ret void)) ∷ []) ∷ []) refl

-- The third thread has fallen asleep before the second one settles the promise.
abbrev asleep_first : List ℕ
asleep_first = 0 ∷ 0 ∷ 2 ∷ 1 ∷ 1 ∷ 1 ∷ []

wait_released_example :
    (turn 2 (schedule (1 ∷ 0 ∷ []) (reached 0 waiting_for asleep_first))).threads
    ≡ ([]
        ∷ (Frame.run none (Code.ret void) ∷ Frame.loop 0 [] ∷ Frame.run none (Code.ret void) ∷ [])
        ∷ [])
      ++ ((Frame.run none (Code.ret void) ∷ []) ∷ [])
unfolding schedule turn turn_at step exec exec_code exec_loop suspend_or_resume await_coroutine
    settle on_resolved read_outcome
wait_released_example =
    wait_released 0 waiting_for asleep_first (1 ∷ 0 ∷ []) none 0 Condition.done (some 1)
      (Code.ret void) []
      ([]
        ∷ (Frame.run none (Code.ret void) ∷ Frame.loop 0 [] ∷ Frame.run none (Code.ret void) ∷ [])
        ∷ [])
      [] refl refl

-- A promise for which a function waits, and after it a coroutine.
abbrev two_waiting : Store ℕ
two_waiting =
    write 0
      (record (blank true false) {
        awaiters = Awaiter.function 1 (Code.ret void) ∷ Awaiter.coroutine none resumed ∷ [];
        use_count = 2;
      })
      pending_store

two_waiting-Quiet : Quiet two_waiting 0
two_waiting-Quiet = record { known = omega arith; open_ = refl; unread = refl; idle = refl }

step-ret :
    (s : Store ℕ) (fs : List (Frame ℕ))
    → step s (Frame.run none (Code.ret void) ∷ fs) ≡ some (s, fs)
unfolding step exec exec_code leave leave_function
step-ret s fs = refl

step-resumed :
    (fs : List (Frame ℕ))
    → step (reported (fulfilled (num 7)) 0 two_waiting) (Frame.resume none 0 resumed ∷ fs)
      ≡ some (reported (fulfilled (num 7)) 0 two_waiting, Frame.run none (Code.ret void) ∷ fs)
step-resumed fs =
    resume-step (reported (fulfilled (num 7)) 0 two_waiting) none 0 resumed fs (fulfilled (num 7))
      (reported-outcome (fulfilled (num 7)) 0 two_waiting refl)
      (lt→ltb 0 (reported (fulfilled (num 7)) 0 two_waiting).next
        (omega (arith, reported-next (fulfilled (num 7)) 0 two_waiting)))

function-Ends : (s : Store ℕ) → Ends s (Frame.run none (Code.ret void)) s
function-Ends s fs = next (step-ret s fs) stop

coroutine-Ends :
    Ends
      (reported (fulfilled (num 7)) 0 two_waiting)
      (Frame.resume none 0 resumed)
      (reported (fulfilled (num 7)) 0 two_waiting)
coroutine-Ends fs = next (step-resumed fs) (next (step-ret _ fs) stop)

settling_ends_example :
    Runs two_waiting
      (Frame.run none (report (fulfilled (num 7)) 0 (Code.ret void)) ∷ [])
      (reported (fulfilled (num 7)) 0 two_waiting)
      (Frame.run none (Code.ret void) ∷ [])
    × (outcome ((reported (fulfilled (num 7)) 0 two_waiting).cell 0) ≡ some (fulfilled (num 7)))
settling_ends_example =
    settling_ends two_waiting (reported (fulfilled (num 7)) 0 two_waiting) none 0
      (fulfilled (num 7)) (Code.ret void) [] two_waiting-Quiet refl refl
      (first_then (function-Ends _) (first_then coroutine-Ends nobody))
