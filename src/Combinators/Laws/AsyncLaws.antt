-- ===== src/Combinators/Laws/AsyncLaws.antt =====
-- `Then` with a promise-returning continuation. include/promise/details/Promise.inl
use jspro_cpp.Prelude.{ℕ, ◌≡◌, Bool, Option, none, some, List, [], ◌∷◌}
use jspro_cpp.Runtime.Value.{Value, Exn, Outcome, fulfilled, rejected}
use jspro_cpp.Runtime.Code.{Code}
use jspro_cpp.Runtime.Cell.{outcome}
use jspro_cpp.Runtime.Store.{Store}
use jspro_cpp.Machine.Exec.{Frame}
use jspro_cpp.Machine.Runs.{Runs, stop, next, Runs-trans}
use jspro_cpp.Machine.Settled.{claimed}
use jspro_cpp.Machine.Returns.{made, made_done, make_done-Runs}
use jspro_cpp.Machine.Delivery.{waiting, Pending, step-on_done_or_create_wait}
use jspro_cpp.Combinators.Fun.{Fun, make_promise, reject_new, forward, resolving, done_void}
use jspro_cpp.Combinators.Then.{then_promise, then_promise_body}
use jspro_cpp.Combinators.Chain.{settled_later, delivered, body_end}
use jspro_cpp.Combinators.Laws.Tracked.{Usable, Waits}
use jspro_cpp.Combinators.Laws.ForwardLaws.{forward_done}
use jspro_cpp.Combinators.Laws.Spared.{Spared}

module _ {S : Type 0} where
  -- `MakePromise` of the function comes back with the promise `q`, in the store `s'`.
  abbrev pub Makes : Store S → Fun S Value → Value → Store S → ℕ → Type 0
  Makes s f v s' q =
      (w : Option ℕ) (k : ℕ → Code S) (fs : List (Frame S))
      → Runs s (Frame.run w (make_promise f v k) ∷ fs) s' (Frame.run w (k q) ∷ fs)

  -- The promise of the continuation: a rejected one in place of a call, or the one that it made.
  pub data Continued (s : Store S) (f : Fun S Value) : Outcome → Store S → ℕ → Type 0 where
    passed_by : {e : Exn} → Continued s f (rejected e) (made_done (rejected e) s) s.next
    started_by :
        {v : Value} {s' : Store S} {q : ℕ} → Makes s f v s' q → Continued s f (fulfilled v) s' q

  body-Runs :
      (s : Store S) (f : Fun S Value) (r : ℕ) (fs : List (Frame S)) (o : Outcome) (s' : Store S)
      (q : ℕ)
      → Continued s f o s' q
      → Runs s
          (Frame.run none (then_promise_body f r o) ∷ fs)
          s'
          (Frame.run none (forward q (resolving r) r done_void) ∷ fs)
  unfolding then_promise_body reject_new
  body-Runs s f r fs (rejected e) s' q passed_by =
      make_done-Runs s none (rejected e) (λ p. forward p (resolving r) r done_void) fs
  body-Runs s f r fs (fulfilled v) s' q (started_by m) = m none _ fs

  -- The function that `Then` leaves on the promise `p`, for the promise `r`.
  abbrev pub continuation : ℕ → Fun S Value → ℕ → Code S
  continuation p f r = Code.read p (then_promise_body f r)

  -- The continuation runs in the store `s`, and its outcome is handed on to `r`.
  pub Continued-later :
      (s : Store S) (p r : ℕ) (f : Fun S Value) (o x : Outcome) (s' : Store S) (q : ℕ)
      (gs : List (Frame S))
      → Continued s f o s' q
      → Usable s' q x
      → Waits s' r
      → (s'' : Store S) × Runs s
          (Frame.run none (then_promise_body f r o) ∷ Frame.loop p [] ∷ gs)
          s''
          gs
        × (outcome (s''.cell r) ≡ some x)
        × Spared s'.next q r s' s''
  Continued-later s p r f o x s' q gs c u h =
      let (s'', runs, done, spared) =
        forward_done s' none q r x done_void (Frame.loop p [] ∷ gs) u h in
      (
        s'',
        Runs-trans (body-Runs s f r (Frame.loop p [] ∷ gs) o s' q c)
            (Runs-trans runs (body_end s p o s'' gs)),
        done,
        spared,
      )

  -- On a promise, of void or not, that is pending, with no awaiters, no lock kept and no coroutine,
  -- `Then` with a promise-returning function leaves one function on it and returns a new promise at
  -- once. When the promise is then settled with `o`, the continuation's promise is made: by the
  -- user's function if `o` is a value, and one that is rejected with the exception otherwise. If
  -- that promise is done with `x`, and the user's function does not touch the new promise, the
  -- settling comes to its end and the new promise is done with `x`.
  pub then_promise-Pending :
      (s : Store S) (v : Bool) (p : ℕ) (f : Fun S Value) (o x : Outcome) (s' : Store S) (q : ℕ)
      (w : Option ℕ) (k : ℕ → Code S) (fs gs : List (Frame S))
      → Pending s p
      → Continued (settled_later s p o (continuation p f s.next)) f o s' q
      → Usable s' q x
      → Waits s' s.next
      → Runs s
          (Frame.run w (then_promise v p f k) ∷ fs)
          (waiting p (continuation p f s.next) (made s))
          (Frame.run w (k s.next) ∷ fs)
        × (s'' : Store S) × Runs
            (claimed p (waiting p (continuation p f s.next) (made s)))
            (Frame.settling p o ∷ gs)
            s''
            gs
        × (outcome (s''.cell s.next) ≡ some x)
  unfolding then_promise
  then_promise-Pending s v p f o x s' q w k fs gs h c u r =
      let (s'', runs, done, spared) =
        Continued-later (settled_later s p o (continuation p f s.next)) p s.next f o x s' q gs c u
          r in
      (
        next (step-on_done_or_create_wait s w p _ _ k fs h) stop,
        s'',
        Runs-trans (delivered s p o (then_promise_body f s.next) gs h) runs,
        done,
      )
