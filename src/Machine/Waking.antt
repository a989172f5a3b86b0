-- ===== src/Machine/Waking.antt =====
-- Settling a promise that any number of functions and coroutines wait for.
-- include/promise/details/Promise.inl, Resolver.inl
use jspro_cpp.Prelude.{ℕ, ◌≡◌, refl, false, Option, none, some, List, [], ◌∷◌}
use jspro_cpp.Runtime.Value.{Outcome}
use jspro_cpp.Runtime.Code.{Code, Awaiter}
use jspro_cpp.Runtime.Cell.{outcome}
use jspro_cpp.Runtime.Store.{Store}
use jspro_cpp.Machine.Exec.{Frame, exec, exec_loop}
use jspro_cpp.Machine.Threads.{step}
use jspro_cpp.Machine.Runs.{Runs, stop, next, Runs-trans, step-loop_end}
use jspro_cpp.Machine.Settled.{Quiet, reported, report, report-Runs, reported-outcome}

module _ {S : Type 0} where
  -- What runs when an awaiter of `p` is called or resumed.
  abbrev pub wake : ℕ → Awaiter S → Frame S
  wake p (Awaiter.coroutine w k) = Frame.resume w p k
  wake p (Awaiter.function id f) = Frame.run none f

  -- On any stack the frame comes to its end, with all that it starts there. A function that an
  -- exception leaves does not.
  abbrev pub Ends : Store S → Frame S → Store S → Type 0
  Ends s f s' = (fs : List (Frame S)) → Runs s (f ∷ fs) s' fs

  -- The awaiters of `p`, each woken in the store that the one before it left, come to their ends.
  pub data AllEnd (p : ℕ) : List (Awaiter S) → Store S → Store S → Type 0 where
    nobody : {s : Store S} → AllEnd p [] s s
    first_then :
        {a : Awaiter S} {as' : List (Awaiter S)} {s s' s'' : Store S}
        → Ends s (wake p a) s'
        → AllEnd p as' s' s''
        → AllEnd p (a ∷ as') s s''

  pub step-loop :
      (s : Store S) (p : ℕ) (a : Awaiter S) (as' : List (Awaiter S)) (fs : List (Frame S))
      → step s (Frame.loop p (a ∷ as') ∷ fs) ≡ some (s, wake p a ∷ Frame.loop p as' ∷ fs)
  unfolding step exec exec_loop
  step-loop s p (Awaiter.coroutine w k) as' fs = refl
  step-loop s p (Awaiter.function id f) as' fs = refl

  loop-Ends :
      (p : ℕ) (as' : List (Awaiter S)) (s s' : Store S)
      → AllEnd p as' s s'
      → Ends s (Frame.loop p as') s'
  loop-Ends p as' s s' nobody fs = next (step-loop_end s p fs) stop
  loop-Ends p as' s s' (first_then {a = a} {as' = bs} {s' = s₁} e h) fs =
      next (step-loop s p a bs fs)
        (Runs-trans (e (Frame.loop p bs ∷ fs)) (loop-Ends p bs s₁ s' h fs))

  -- A call of `Resolve` or `Reject` on a promise that nobody has settled, that no coroutine runs
  -- and on which no lock is kept, with any number of awaiters of either kind: if each of them ends
  -- when it is woken in the store that the one before it left, the call returns, and has run them
  -- all, once each, in the order in which they came to wait, with the outcome stored before the
  -- first of them. An awaiter function that throws does not end: its exception would leave the call
  -- and skip the awaiters after it.
  pub settling_ends :
      (s s' : Store S) (w : Option ℕ) (p : ℕ) (o : Outcome) (k : Code S) (fs : List (Frame S))
      → Quiet s p
      → (s.cell p).rejected ≡ false
      → outcome (s.cell p) ≡ none
      → AllEnd p (s.cell p).awaiters (reported o p s) s'
      → Runs s (Frame.run w (report o p k) ∷ fs) s' (Frame.run w k ∷ fs)
        × (outcome ((reported o p s).cell p) ≡ some o)
  settling_ends s s' w p o k fs q r n h = (
    Runs-trans (report-Runs s w o p k fs q r)
        (loop-Ends p (s.cell p).awaiters (reported o p s) s' h (Frame.run w k ∷ fs)),
    reported-outcome o p s n,
  )
