-- ===== src/Sync/StatePromise/Moves.antt =====
-- The moves of a state promise between its phases. src/StatePromise.cpp
use jspro_cpp.Prelude.{ℕ, suc, ◌≢◌, sym, ◌∙◌, Option, List, ◌∷◌, arith}
use jspro_cpp.Runtime.Code.{Code}
use jspro_cpp.Runtime.Store.{Store}
use jspro_cpp.Machine.Exec.{Frame}
use jspro_cpp.Machine.Runs.{Runs, stop, next, Runs-trans, step-locked}
use jspro_cpp.Machine.Returns.{made, made-cell, create-Runs}
use jspro_cpp.Machine.Delivery.{Pending, made-Pending}
use jspro_cpp.Combinators.Wrapper.{is_resolved}
use jspro_cpp.Sync.StatePromise.{StatePromise, set_ready, set_done, destroy, reset}
use jspro_cpp.Sync.StatePromise.Phases.{
  Phase, At, With→At, after, resolve_alone, after-shared, after-Fulfilled, after-Pending,
  after-still, Pending-Runs, Fulfilled-Runs, made_alone,
}

-- Called from any code, on any stack, the operation goes on to what follows in the phase.
pub record Goes (s : Store StatePromise) (c : Code StatePromise → Code StatePromise) (ph : Phase)
    : Type 0 where
  pub after_ : Store StatePromise
  pub runs :
      (w : Option ℕ) (k : Code StatePromise) (fs : List (Frame StatePromise))
      → Runs s (Frame.run w (c k) ∷ fs) after_ (Frame.run w k ∷ fs)
  pub phase : At after_ ph

-- `Ready` in the initial phase.
pub initial-set_ready : (s : Store StatePromise) → At s Phase.initial → Goes s set_ready Phase.ready
unfolding set_ready
initial-set_ready s h =
    let (n, r, d) = h in
    record {
      after_ = after s.shared.ready s;
      runs = λ w k fs. next (step-locked s w _ _ fs) (
          Runs-trans (Pending-Runs s w s.shared.ready _ fs r) (
            Runs-trans (Pending-Runs s w s.shared.done _ fs d)
              (resolve_alone s w s.shared.ready k fs r)));
      phase =
          With→At (after s.shared.ready s) s.shared Phase.ready (after-shared s s.shared.ready) (
            n,
            after-Fulfilled s s.shared.ready r,
            after-Pending s s.shared.ready s.shared.done n d,
          );
    }

-- `Done` in the initial phase.
pub initial-set_done : (s : Store StatePromise) → At s Phase.initial → Goes s set_done Phase.done
unfolding set_done
initial-set_done s h =
    let (n, r, d) = h in
    let n' : s.shared.done ≢ s.shared.ready = λ e. n (sym e) in
    let r' = after-Pending s s.shared.done s.shared.ready n' r in
    record {
      after_ = after s.shared.ready (after s.shared.done s);
      runs = λ w k fs. next (step-locked s w _ _ fs) (
          Runs-trans (Pending-Runs s w s.shared.ready _ fs r) (
            Runs-trans (resolve_alone s w s.shared.done _ fs d)
              (resolve_alone (after s.shared.done s) w s.shared.ready k fs r')));
      phase =
          With→At (after s.shared.ready (after s.shared.done s)) s.shared Phase.done
            (after-shared (after s.shared.done s) s.shared.ready ∙ after-shared s s.shared.done)
            (
              n,
              after-Fulfilled (after s.shared.done s) s.shared.ready r',
              after-still (after s.shared.done s) s.shared.ready s.shared.done n
                  (after-Fulfilled s s.shared.done d),
            );
    }

-- `Done` in the ready phase.
pub ready-set_done : (s : Store StatePromise) → At s Phase.ready → Goes s set_done Phase.done
unfolding set_done
ready-set_done s h =
    let (n, r, d) = h in
    let n' : s.shared.done ≢ s.shared.ready = λ e. n (sym e) in
    record {
      after_ = after s.shared.done s;
      runs = λ w k fs. next (step-locked s w _ _ fs) (
          Runs-trans (Fulfilled-Runs s w s.shared.ready _ fs r)
            (resolve_alone s w s.shared.done _ fs d));
      phase =
          With→At (after s.shared.done s) s.shared Phase.done (after-shared s s.shared.done)
            (n, after-still s s.shared.done s.shared.ready n' r, after-Fulfilled s s.shared.done d);
    }

-- The destructor in the initial phase: it resolves the ready promise first.
pub initial-destroy : (s : Store StatePromise) → At s Phase.initial → Goes s destroy Phase.done
unfolding destroy
initial-destroy s h =
    let (n, r, d) = h in
    let n' : s.shared.done ≢ s.shared.ready = λ e. n (sym e) in
    let d' = after-Pending s s.shared.ready s.shared.done n d in
    record {
      after_ = after s.shared.done (after s.shared.ready s);
      runs = λ w k fs. next (step-locked s w _ _ fs) (
          Runs-trans (resolve_alone s w s.shared.ready _ fs r)
            (resolve_alone (after s.shared.ready s) w s.shared.done k fs d'));
      phase =
          With→At (after s.shared.done (after s.shared.ready s)) s.shared Phase.done
            (after-shared (after s.shared.ready s) s.shared.done ∙ after-shared s s.shared.ready)
            (
              n,
              after-still (after s.shared.ready s) s.shared.done s.shared.ready n'
                  (after-Fulfilled s s.shared.ready r),
              after-Fulfilled (after s.shared.ready s) s.shared.done d',
            );
    }

-- `Reset` in the initial phase changes nothing.
pub initial-reset : (s : Store StatePromise) → At s Phase.initial → Goes s reset Phase.initial
unfolding reset is_resolved
initial-reset s h =
    let (n, r, d) = h in
    record {
      after_ = s;
      runs = λ w k fs. next (step-locked s w _ _ fs) (
          Runs-trans (Pending-Runs s w s.shared.done _ fs d)
            (Pending-Runs s w s.shared.ready _ fs r));
      phase = h;
    }

-- A new ready promise.
renewed : Store StatePromise → Store StatePromise
renewed s = record (made s) { shared = record s.shared { ready = s.next } }

renewed-new : (s : Store StatePromise) → Pending (renewed s) s.next
unfolding renewed
renewed-new s = made_alone (renewed s) s.next (omega arith) (made-cell s)

renewed-done :
    (s : Store StatePromise) → Pending s s.shared.done → Pending (renewed s) s.shared.done
unfolding renewed
renewed-done s d =
    let h = made-Pending s s.shared.done d in
    record {
      quiet = record {
        known = h.quiet.known;
        open_ = h.quiet.open_;
        unread = h.quiet.unread;
        idle = h.quiet.idle;
      };
      undone = h.undone;
      alone = h.alone;
    }

-- `Reset` in the ready phase makes a new ready promise.
pub ready-reset : (s : Store StatePromise) → At s Phase.ready → Goes s reset Phase.initial
unfolding reset is_resolved renewed
ready-reset s h =
    let (n, r, d) = h in
    record {
      after_ = renewed s;
      runs = λ w k fs. next (step-locked s w _ _ fs) (
          Runs-trans (Pending-Runs s w s.shared.done _ fs d) (
            Runs-trans (Fulfilled-Runs s w s.shared.ready _ fs r)
              (Runs-trans (create-Runs s w _ fs) (next (step-locked (made s) w _ _ fs) stop))));
      phase = (λ e. omega (arith, e, d.quiet.known), renewed-new s, renewed-done s d);
    }

-- Two new promises.
remade : Store StatePromise → Store StatePromise
remade s = let s₁ = renewed s in record (made s₁) { shared = record s₁.shared { done = s₁.next } }

remade-ready : (s : Store StatePromise) → Pending (remade s) s.next
unfolding remade renewed
remade-ready s = made_alone (remade s) s.next (omega arith) (ground arith)

remade-done : (s : Store StatePromise) → Pending (remade s) (suc s.next)
unfolding remade renewed
remade-done s = made_alone (remade s) (suc s.next) (omega arith) (ground arith)

-- `Reset` in the done phase makes two new promises.
pub done-reset : (s : Store StatePromise) → At s Phase.done → Goes s reset Phase.initial
unfolding reset is_resolved renewed remade
done-reset s h =
    let (n, r, d) = h in
    record {
      after_ = remade s;
      runs = λ w k fs. next (step-locked s w _ _ fs) (
          Runs-trans (Fulfilled-Runs s w s.shared.done _ fs d) (
            Runs-trans (Fulfilled-Runs s w s.shared.ready _ fs r) (
              Runs-trans (create-Runs s w _ fs) (
                next (step-locked (made s) w _ _ fs) (
                  Runs-trans (create-Runs (renewed s) w _ fs)
                    (next (step-locked (made (renewed s)) w _ _ fs) stop))))));
      phase = (λ e. omega (arith, e), remade-ready s, remade-done s);
    }
