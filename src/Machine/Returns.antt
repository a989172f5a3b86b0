-- ===== src/Machine/Returns.antt =====
-- Calls: what a piece of code returns or throws, and promises made on the spot.
use jspro_cpp.Prelude.{
  ℕ, ◌≡◌, refl, subst, true, false, Option, some, List, [], ◌∷◌, arith, ==_refl,
}
use jspro_cpp.Runtime.Value.{Value, Exn, Outcome, fulfilled, rejected}
use jspro_cpp.Runtime.Code.{Code, try_catch}
use jspro_cpp.Runtime.Cell.{blank, outcome}
use jspro_cpp.Runtime.Store.{Store, alloc}
use jspro_cpp.Machine.Exec.{Frame, exec, exec_code}
use jspro_cpp.Machine.Threads.{step}
use jspro_cpp.Machine.Runs.{Runs, stop, next, Runs-trans, step-loop_end}
use jspro_cpp.Machine.Settled.{Quiet, reported, report, report-Runs, reported-outcome}

module _ {S : Type 0} where
  abbrev pub branch : (Value → Code S) → (Exn → Code S) → Outcome → Code S
  branch k h (fulfilled v) = k v
  branch k h (rejected e) = h e

  -- Called from any code, on any stack, `c` returns or throws `o` and leaves the store `s'`.
  abbrev pub Returns : Store S → Code S → Store S → Outcome → Type 0
  Returns s c s' o =
      (w : Option ℕ) (k : Value → Code S) (h : Exn → Code S) (fs : List (Frame S))
      → Runs s (Frame.run w (try_catch c k h) ∷ fs) s' (Frame.run w (branch k h o) ∷ fs)

  -- Code that does nothing but return or throw.
  abbrev pub pure : Outcome → Code S
  pure (fulfilled v) = Code.ret v
  pure (rejected e) = Code.throw e

  pub pure-Returns : (s : Store S) (o : Outcome) → Returns s (pure o) s o
  unfolding try_catch
  pure-Returns s (fulfilled v) w k h fs = stop
  pure-Returns s (rejected e) w k h fs = stop

  step-create :
      (s : Store S) (w : Option ℕ) (k : ℕ → Code S) (fs : List (Frame S))
      → step s (Frame.run w (Code.create k) ∷ fs)
        ≡ some (alloc (blank true false) s, Frame.run w (k s.next) ∷ fs)
  unfolding step exec exec_code
  step-create s w k fs = refl

  -- A new promise and its number.
  abbrev pub made : Store S → Store S
  made s = alloc (blank true false) s

  pub made-cell : (s : Store S) → (made s).cell s.next ≡ blank true false
  made-cell s = rw (==_refl s.next)

  pub made-Quiet : (s : Store S) → Quiet (made s) s.next
  made-Quiet s = record {
    known = omega arith;
    open_ = rw (==_refl s.next);
    unread = rw (==_refl s.next);
    idle = rw (==_refl s.next);
  }

  pub create-Runs :
      (s : Store S) (w : Option ℕ) (k : ℕ → Code S) (fs : List (Frame S))
      → Runs s (Frame.run w (Code.create k) ∷ fs) (made s) (Frame.run w (k s.next) ∷ fs)
  create-Runs s w k fs = next (step-create s w k fs) stop

  -- An outcome reported to a promise that has no awaiters.
  pub report_alone-Runs :
      (s : Store S) (w : Option ℕ) (o : Outcome) (r : ℕ) (k : Code S) (fs : List (Frame S))
      → Quiet s r
      → (s.cell r).rejected ≡ false
      → (s.cell r).awaiters ≡ []
      → Runs s (Frame.run w (report o r k) ∷ fs) (reported o r s) (Frame.run w k ∷ fs)
  report_alone-Runs s w o r k fs h n e =
      Runs-trans
        (subst
          (λ as'.
            Runs s (Frame.run w (report o r k) ∷ fs) (reported o r s)
              (Frame.loop r as' ∷ Frame.run w k ∷ fs))
          e (report-Runs s w o r k fs h n))
        (next (step-loop_end (reported o r s) r (Frame.run w k ∷ fs)) stop)

  -- `Promise::Resolve` and `Promise::Reject`: a promise that is done from the start.
  abbrev pub made_done : Outcome → Store S → Store S
  made_done o s = reported o s.next (made s)

  pub make_done-Runs :
      (s : Store S) (w : Option ℕ) (o : Outcome) (k : ℕ → Code S) (fs : List (Frame S))
      → Runs s
          (Frame.run w (Code.create (λ r. report o r (k r))) ∷ fs)
          (made_done o s)
          (Frame.run w (k s.next) ∷ fs)
  make_done-Runs s w o k fs = Runs-trans (create-Runs s w (λ r. report o r (k r)) fs) (
      report_alone-Runs (made s) w o s.next (k s.next) fs (made-Quiet s) (rw (==_refl s.next))
        (rw (==_refl s.next)))

  pub made_done-outcome :
      (o : Outcome) (s : Store S) → outcome ((made_done o s).cell s.next) ≡ some o
  made_done-outcome o s = reported-outcome o s.next (made s) (rw (==_refl s.next))
