-- ===== src/Sync/Pool/Tasks.antt =====
-- What a dispatched function comes to. include/promise/Pool.h
use jspro_cpp.Prelude.{ℕ, ◌≡◌, refl, subst, Bool, false, Option, none, some, List, ◌∷◌}
use jspro_cpp.Runtime.Value.{queue_stopped, Outcome, rejected}
use jspro_cpp.Runtime.Code.{Code}
use jspro_cpp.Runtime.Cell.{outcome}
use jspro_cpp.Runtime.Store.{Store}
use jspro_cpp.Machine.Exec.{Frame, exec, exec_code, leave, leave_function}
use jspro_cpp.Machine.Threads.{step}
use jspro_cpp.Machine.Runs.{Runs, stop, next, Runs-trans}
use jspro_cpp.Machine.Settled.{reported, reported-outcome}
use jspro_cpp.Machine.Returns.{
  Returns, made, made_done, create-Runs, report_alone-Runs, made_done-outcome,
}
use jspro_cpp.Combinators.Fun.{done_void}
use jspro_cpp.Combinators.Laws.Tracked.{Waits, new-Waits}
use jspro_cpp.Combinators.Laws.ThenLaws.{branch-report}
use jspro_cpp.Sync.Pool.{call_task, post_task, dispatch}

module _ {S : Type 0} where
  step-end :
      (s : Store S) (fs : List (Frame S)) → step s (Frame.run none done_void ∷ fs) ≡ some (s, fs)
  unfolding step exec exec_code leave leave_function
  step-end s fs = refl

  -- A thread of the pool runs the task of a function that returns or throws `x`, while the promise
  -- `p` that `Dispatch` returned is pending, unused and without awaiters when the function ends. The
  -- task comes to its end and `p` is done with `x`.
  pub task_settles :
      (s s' : Store S) (f : Code S) (p : ℕ) (x : Outcome) (fs : List (Frame S))
      → Returns s f s' x
      → Waits s' p
      → Runs s (Frame.run none (call_task f p) ∷ fs) (reported x p s') fs
        × (outcome ((reported x p s').cell p) ≡ some x)
  unfolding call_task
  task_settles s s' f p x fs r h = (
    Runs-trans
        (subst (λ c. Runs s (Frame.run none (call_task f p) ∷ fs) s' (Frame.run none c ∷ fs))
          (branch-report p done_void x) (r none _ _ fs))
        (Runs-trans
          (report_alone-Runs s' none x p done_void fs h.pending.quiet h.unused h.pending.alone)
          (next (step-end (reported x p s') fs) stop)),
    reported-outcome x p s' h.pending.undone,
  )

  -- If the pool refuses tasks, which it does without a change to any promise, `Dispatch` of a
  -- function returns a promise that is rejected with `QueueStopped` before it returns.
  pub dispatch_refused :
      (post : Code S → (Bool → Code S) → Code S) (s : Store S) (w : Option ℕ) (f : Code S)
      (k : ℕ → Code S) (fs : List (Frame S))
      → ((s : Store S) (t : Code S) (j : Bool → Code S)
          → Runs s (Frame.run w (post t j) ∷ fs) s (Frame.run w (j false) ∷ fs))
      → Runs s
          (Frame.run w (dispatch post f k) ∷ fs)
          (made_done (rejected queue_stopped) s)
          (Frame.run w (k s.next) ∷ fs)
        × (outcome ((made_done (rejected queue_stopped) s).cell s.next)
            ≡ some (rejected queue_stopped))
  unfolding dispatch post_task
  dispatch_refused post s w f k fs refuses = (
    Runs-trans (create-Runs s w _ fs) (
        Runs-trans (refuses (made s) (call_task f s.next) _) (
          let h = new-Waits s in
          report_alone-Runs (made s) w (rejected queue_stopped) s.next (k s.next) fs h.pending.quiet
            h.unused h.pending.alone)),
    made_done-outcome (rejected queue_stopped) s,
  )
