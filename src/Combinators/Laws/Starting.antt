-- ===== src/Combinators/Laws/Starting.antt =====
-- A continuation that is a coroutine which returns or throws at once.
-- include/promise/details/helpers.inl
use jspro_cpp.Prelude.{ℕ, ◌≡◌, refl, ◌∙◌, some, List, [], ◌∷◌, arith, ==_refl}
use jspro_cpp.Runtime.Value.{Value, Outcome}
use jspro_cpp.Runtime.Code.{Code}
use jspro_cpp.Runtime.Store.{Store}
use jspro_cpp.Machine.Exec.{Frame, exec, exec_loop}
use jspro_cpp.Machine.Threads.{step}
use jspro_cpp.Machine.Runs.{stop, next, Runs-trans}
use jspro_cpp.Machine.Returns.{pure}
use jspro_cpp.Machine.Delivery.{Pending}
use jspro_cpp.Machine.Unsettled.{started, started-Running, step-start}
use jspro_cpp.Machine.Coroutine.{
  ended, end-Runs, ended-outcome, ended-other, ended-next, ended-readers,
}
use jspro_cpp.Combinators.Fun.{Fun, make_promise}
use jspro_cpp.Combinators.Chain.{settled_later, later-fresh, later-next}
use jspro_cpp.Combinators.Laws.Tracked.{Usable, Waits, same-Waits, blank-Waits}
use jspro_cpp.Combinators.Laws.AsyncLaws.{Makes}

module _ {S : Type 0} where
  -- The store once the coroutine has ended.
  abbrev pub returned : Outcome → Store S → Store S
  returned x s = ended s.next x (started s)

  step-loop :
      (s : Store S) (r : ℕ) (fs : List (Frame S)) → step s (Frame.loop r [] ∷ fs) ≡ some (s, fs)
  unfolding step exec exec_loop
  step-loop s r fs = refl

  pub coroutine-Makes :
      (s : Store S) (x : Outcome) (v : Value)
      → Makes s (Fun.coroutine λ _. pure x) v (returned x s) s.next
  unfolding make_promise
  coroutine-Makes s x v w k fs = next (step-start s w (λ _. pure x) k fs) (
      Runs-trans (end-Runs (started s) s.next x (started-Running s) (Frame.run w (k s.next) ∷ fs))
        (rw (==_refl s.next) (next (step-loop _ s.next (Frame.run w (k s.next) ∷ fs)) stop)))

  pub returned-Usable : (s : Store S) (x : Outcome) → Usable (returned x s) s.next x
  returned-Usable s x = record {
    known = omega (arith, ended-next (started s) s.next x (started-Running s));
    done = ended-outcome (started s) s.next x (started-Running s) (rw (==_refl s.next));
    unread = ended-readers (started s) s.next x (started-Running s) ∙ rw (==_refl s.next);
  }

  pub returned-Waits : (s : Store S) (x : Outcome) (r : ℕ) → Waits s r → Waits (returned x s) r
  returned-Waits s x r h =
      same-Waits s (returned x s) r
        (omega (arith, ended-next (started s) s.next x (started-Running s)))
        (ended-other (started s) s.next x (started-Running s) r
            (omega (arith, h.pending.quiet.known))
          ∙ ground (arith, h.pending.quiet.known))
        h

  -- The promise that a chaining call returned, when the promise before it has been settled.
  pub later-Waits :
      (s : Store S) (p : ℕ) (o : Outcome) (f : Code S)
      → Pending s p
      → Waits (settled_later s p o f) s.next
  later-Waits s p o f h =
      blank-Waits (settled_later s p o f) s.next (omega (arith, later-next s p o f))
        (later-fresh s p o f h.quiet.known)
