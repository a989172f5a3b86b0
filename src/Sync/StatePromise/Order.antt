-- ===== src/Sync/StatePromise/Order.antt =====
-- Which waiters `Done` and the destructor of a state promise wake first. src/StatePromise.cpp
use jspro_cpp.Prelude.{ℕ, ◌≡◌, ◌≢◌, ap, sym, ◌∙◌, Option, none, some, List, ◌∷◌, lt→ltb}
use jspro_cpp.Runtime.Value.{void, fulfilled}
use jspro_cpp.Runtime.Code.{Code}
use jspro_cpp.Runtime.Cell.{outcome}
use jspro_cpp.Runtime.Store.{Store}
use jspro_cpp.Machine.Exec.{Frame}
use jspro_cpp.Machine.Runs.{Runs, next, step-locked, step-status}
use jspro_cpp.Machine.Settled.{Quiet, settled, resolve-Runs, settled-outcome, settled-other}
use jspro_cpp.Sync.StatePromise.{StatePromise, set_done, destroy}

-- Both promises of the object are pending; anybody may wait on them.
pub record Fresh (s : Store StatePromise) : Type 0 where
  pub apart : s.shared.ready ≢ s.shared.done
  pub ready_quiet : Quiet s s.shared.ready
  pub ready_undone : outcome (s.cell s.shared.ready) ≡ none
  pub done_quiet : Quiet s s.shared.done
  pub done_undone : outcome (s.cell s.shared.done) ≡ none

-- On an object of which both promises are pending, with any awaiters, `Done` fulfils the done
-- promise and hands over its awaiters to be run while the ready promise is pending; the destructor
-- fulfils the ready promise and hands over its awaiters while the done promise is pending.
pub wake_order :
    (s : Store StatePromise) (w : Option ℕ) (k : Code StatePromise) (fs : List (Frame StatePromise))
    → Fresh s
    → let r = s.shared.ready in
      let d = s.shared.done in
      ((s' : Store StatePromise) × (k' : Code StatePromise) × Runs s
          (Frame.run w (set_done k) ∷ fs)
          s'
          (Frame.loop d (s.cell d).awaiters ∷ Frame.run w k' ∷ fs)
        × (outcome (s'.cell d) ≡ some (fulfilled void))
        × (outcome (s'.cell r) ≡ none))
      × ((s' : Store StatePromise) × (k' : Code StatePromise) × Runs s
            (Frame.run w (destroy k) ∷ fs)
            s'
            (Frame.loop r (s.cell r).awaiters ∷ Frame.run w k' ∷ fs)
          × (outcome (s'.cell r) ≡ some (fulfilled void))
          × (outcome (s'.cell d) ≡ none))
unfolding set_done destroy
wake_order s w k fs h =
    let r = s.shared.ready in
    let d = s.shared.done in
    (
      (
        settled d (fulfilled void) s,
        Code.resolve r void (λ _. k),
        next (step-locked s w _ _ fs) (
            next (step-status s w r _ fs (lt→ltb r s.next h.ready_quiet.known))
              (rw h.ready_undone (resolve-Runs s w d void _ fs h.done_quiet))),
        settled-outcome d (fulfilled void) s h.done_undone,
        ap outcome (settled-other d r (fulfilled void) s (λ e. h.apart (sym e))) ∙ h.ready_undone,
      ),
      (
        settled r (fulfilled void) s,
        Code.resolve d void (λ _. k),
        next (step-locked s w _ _ fs) (resolve-Runs s w r void _ fs h.ready_quiet),
        settled-outcome r (fulfilled void) s h.ready_undone,
        ap outcome (settled-other r d (fulfilled void) s h.apart) ∙ h.done_undone,
      ),
    )
