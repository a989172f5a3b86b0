-- ===== src/Sync/StatePromise/Phases.antt =====
-- The phases of a state promise, and how its operations move it. src/StatePromise.cpp
use jspro_cpp.Prelude.{
  ℕ, ◌<◌, ◌≡◌, ◌≢◌, refl, sym, subst, true, false, Option, none, some, List, [], ◌∷◌, arith, lt→ltb,
}
use jspro_cpp.Runtime.Value.{void, Outcome, fulfilled}
use jspro_cpp.Runtime.Code.{Code}
use jspro_cpp.Runtime.Cell.{outcome, blank}
use jspro_cpp.Runtime.Store.{Store}
use jspro_cpp.Machine.Exec.{Frame, exec, exec_loop}
use jspro_cpp.Machine.Threads.{step}
use jspro_cpp.Machine.Runs.{Runs, stop, next, Runs-trans, step-status}
use jspro_cpp.Machine.Settled.{
  settled, resolve-Runs, settled-outcome, settled-other, settled-shared, settled-next,
}
use jspro_cpp.Machine.Delivery.{Pending}
use jspro_cpp.Sync.StatePromise.{StatePromise}

pub data Phase : Type 0 where
  initial : Phase
  ready : Phase
  done : Phase

abbrev pub Fulfilled : Store StatePromise → ℕ → Type 0
Fulfilled s p = (p < s.next) × (outcome (s.cell p) ≡ some (fulfilled void))

-- An object with these two promises is in the phase, and nobody waits on a promise that is pending.
abbrev pub With : Store StatePromise → StatePromise → Phase → Type 0
With s m Phase.initial = (m.ready ≢ m.done) × Pending s m.ready × Pending s m.done
With s m Phase.ready = (m.ready ≢ m.done) × Fulfilled s m.ready × Pending s m.done
With s m Phase.done = (m.ready ≢ m.done) × Fulfilled s m.ready × Fulfilled s m.done

abbrev pub At : Store StatePromise → Phase → Type 0
At s ph = With s s.shared ph

pub With→At :
    (s : Store StatePromise) (m : StatePromise) (ph : Phase) → s.shared ≡ m → With s m ph → At s ph
With→At s m ph e h = subst (λ x. With s x ph) (sym e) h

abbrev fulfilled_void : Outcome
fulfilled_void = fulfilled void

-- The store once `Resolve` has been called on a pending promise.
pub after : ℕ → Store StatePromise → Store StatePromise
after p s = settled p fulfilled_void s

step-loop :
    (s : Store StatePromise) (p : ℕ) (fs : List (Frame StatePromise))
    → step s (Frame.loop p [] ∷ fs) ≡ some (s, fs)
unfolding step exec exec_loop
step-loop s p fs = refl

pub resolve_alone :
    (s : Store StatePromise) (w : Option ℕ) (p : ℕ) (k : Code StatePromise)
    (fs : List (Frame StatePromise))
    → Pending s p
    → Runs s (Frame.run w (Code.resolve p void λ _. k) ∷ fs) (after p s) (Frame.run w k ∷ fs)
unfolding after
resolve_alone s w p k fs h =
    Runs-trans
      (subst
        (λ x.
          Runs s (Frame.run w (Code.resolve p void λ _. k) ∷ fs) (settled p fulfilled_void s)
            (Frame.loop p x ∷ Frame.run w k ∷ fs))
        h.alone (resolve-Runs s w p void (λ _. k) fs h.quiet))
      (next (step-loop _ p (Frame.run w k ∷ fs)) stop)

pub after-shared : (s : Store StatePromise) (p : ℕ) → (after p s).shared ≡ s.shared
unfolding after
after-shared s p = settled-shared p fulfilled_void s

pub after-Fulfilled : (s : Store StatePromise) (p : ℕ) → Pending s p → Fulfilled (after p s) p
unfolding after
after-Fulfilled s p h = (
  omega (arith, settled-next p fulfilled_void s, h.quiet.known),
  settled-outcome p fulfilled_void s h.undone,
)

pub after-Pending : (s : Store StatePromise) (p q : ℕ) → p ≢ q → Pending s q → Pending (after p s) q
unfolding after
after-Pending s p q n h = record {
  quiet = record {
    known = omega (arith, settled-next p fulfilled_void s, h.quiet.known);
    open_ = rw (settled-other p q fulfilled_void s n) h.quiet.open_;
    unread = rw (settled-other p q fulfilled_void s n) h.quiet.unread;
    idle = rw (settled-other p q fulfilled_void s n) h.quiet.idle;
  };
  undone = rw (settled-other p q fulfilled_void s n) h.undone;
  alone = rw (settled-other p q fulfilled_void s n) h.alone;
}

pub after-still :
    (s : Store StatePromise) (p q : ℕ) → p ≢ q → Fulfilled s q → Fulfilled (after p s) q
unfolding after
after-still s p q n h = (
  omega (arith, settled-next p fulfilled_void s, h.0),
  rw (settled-other p q fulfilled_void s n) h.1,
)

-- What the calls of `Done` and `Resolved` of a promise go on with.
pub Pending-Runs :
    (s : Store StatePromise) (w : Option ℕ) (p : ℕ) (k : Option Outcome → Code StatePromise)
    (fs : List (Frame StatePromise))
    → Pending s p
    → Runs s (Frame.run w (Code.status p k) ∷ fs) s (Frame.run w (k none) ∷ fs)
Pending-Runs s w p k fs h =
    next (step-status s w p k fs (lt→ltb p s.next h.quiet.known)) (rw h.undone stop)

pub Fulfilled-Runs :
    (s : Store StatePromise) (w : Option ℕ) (p : ℕ) (k : Option Outcome → Code StatePromise)
    (fs : List (Frame StatePromise))
    → Fulfilled s p
    → Runs s (Frame.run w (Code.status p k) ∷ fs) s (Frame.run w (k (some fulfilled_void)) ∷ fs)
Fulfilled-Runs s w p k fs h = next (step-status s w p k fs (lt→ltb p s.next h.0)) (rw h.1 stop)

-- A promise as it is made.
pub made_alone :
    (s : Store StatePromise) (p : ℕ) → p < s.next → s.cell p ≡ blank true false → Pending s p
made_alone s p l e = record {
  quiet = record { known = l; open_ = rw e; unread = rw e; idle = rw e };
  undone = rw e;
  alone = rw e;
}
