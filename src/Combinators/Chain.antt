-- ===== src/Combinators/Chain.antt =====
-- The two ways to a chained promise: the first promise is done already, or is settled later.
use jspro_cpp.Prelude.{
  ℕ, suc, ◌<◌, ◌≡◌, refl, ◌∙◌, true, false, Option, none, some, List, [], ◌∷◌, arith, lt→ltb,
}
use jspro_cpp.Runtime.Value.{Value, void, Outcome}
use jspro_cpp.Runtime.Code.{Code}
use jspro_cpp.Runtime.Cell.{blank, outcome}
use jspro_cpp.Runtime.Store.{Store, valid}
use jspro_cpp.Machine.Exec.{Frame, exec, exec_code, exec_loop, leave, leave_function}
use jspro_cpp.Machine.Threads.{step}
use jspro_cpp.Machine.Runs.{Runs, stop, next, Runs-trans, step-read, step-on_done}
use jspro_cpp.Machine.Settled.{
  Quiet, claimed, settled, settled-outcome, settled-other, settled-next, reported, report,
  reported-outcome,
}
use jspro_cpp.Machine.Returns.{made, made-cell, create-Runs, report_alone-Runs}
use jspro_cpp.Machine.Delivery.{
  waiting, Pending, Untouched, step-on_done_wait, Quiet-free, made-other, made-Pending,
  delivery-Runs, waiting-other, waiting-next, waiting-outcome,
}
use jspro_cpp.Combinators.Fun.{done_void}

module _ {S : Type 0} where
  -- Code that comes to report `x` to the promise `r`, in the store `s'`.
  abbrev pub Reports : Store S → (Code S → Code S) → ℕ → Store S → Outcome → Type 0
  Reports s c r s' x =
      (w : Option ℕ) (k : Code S) (fs : List (Frame S))
      → Runs s (Frame.run w (c k) ∷ fs) s' (Frame.run w (report x r k) ∷ fs)

  module _ (s s' : Store S) (r : ℕ) (known : r < s.next) (fresh : s.cell r ≡ blank true false)
      (u : Untouched s s' r) where
    still : s'.cell r ≡ blank true false
    still = u.same ∙ fresh

    untouched-Quiet : Quiet s' r
    untouched-Quiet = record {
      known = omega (arith, u.grown);
      open_ = rw still;
      unread = rw still;
      idle = rw still;
    }

    -- The report to the untouched promise, from there to the end of the code.
    untouched-Runs :
        (w : Option ℕ) (x : Outcome) (k : Code S) (fs : List (Frame S))
        → Runs s' (Frame.run w (report x r k) ∷ fs) (reported x r s') (Frame.run w k ∷ fs)
    untouched-Runs w x k fs = report_alone-Runs s' w x r k fs untouched-Quiet (rw still) (rw still)

    untouched-outcome : (x : Outcome) → outcome ((reported x r s').cell r) ≡ some x
    untouched-outcome x = reported-outcome x r s' (rw still)

  step-leave :
      (s : Store S) (v : Value) (fs : List (Frame S))
      → step s (Frame.run none (Code.ret v) ∷ fs) ≡ some (s, fs)
  unfolding step exec exec_code leave leave_function
  step-leave s v fs = refl

  step-loop_done :
      (s : Store S) (p : ℕ) (fs : List (Frame S)) → step s (Frame.loop p [] ∷ fs) ≡ some (s, fs)
  unfolding step exec exec_loop
  step-loop_done s p fs = refl

  -- The function that a chaining call leaves on the promise.
  abbrev pub listener : ℕ → (Outcome → Code S → Code S) → Code S
  listener p body = Code.read p λ q. body q done_void

  module _ (s : Store S) (p : ℕ) (o : Outcome) where
    -- The promise is done: the body runs at once.
    pub early :
        (w : Option ℕ) (f : ℕ → Code S) (done : ℕ → Outcome → Code S) (k : ℕ → Code S)
        (fs : List (Frame S)) (s' : Store S) (x : Outcome)
        → outcome (s.cell p) ≡ some o
        → p < s.next
        → (s.cell p).readers ≡ 0
        → Runs
            (made s)
            (Frame.run w (done s.next o) ∷ fs)
            s'
            (Frame.run w (report x s.next (k s.next)) ∷ fs)
        → Untouched (made s) s' s.next
        → Runs s
            (Frame.run w (Code.create λ r. Code.on_done p (f r) (done r) (λ _. k r)) ∷ fs)
            (reported x s.next s')
            (Frame.run w (k s.next) ∷ fs)
    early w f done k fs s' x e known unread b u = Runs-trans (create-Runs s w _ fs) (
        next
          (step-on_done (made s) w p (f s.next) (done s.next) (λ _. k s.next) fs o
            (rw (made-other s p known) e) (ground (arith, made-other s p known)))
          (Runs-trans b
            (untouched-Runs (made s) s' s.next (omega arith) (made-cell s) u w x (k s.next) fs)))

    pub early-outcome :
        (s' : Store S) (x : Outcome)
        → Untouched (made s) s' s.next
        → outcome ((reported x s.next s').cell s.next) ≡ some x
    early-outcome s' x u = untouched-outcome (made s) s' s.next (omega arith) (made-cell s) u x

    -- The promise is pending: the call leaves a function on it and returns.
    pub registered :
        (w : Option ℕ) (f : ℕ → Code S) (done : ℕ → Outcome → Code S) (k : ℕ → Code S)
        (fs : List (Frame S))
        → Pending s p
        → Runs s
            (Frame.run w (Code.create λ r. Code.on_done p (f r) (done r) (λ _. k r)) ∷ fs)
            (waiting p (f s.next) (made s))
            (Frame.run w (k s.next) ∷ fs)
    registered w f done k fs h = Runs-trans (create-Runs s w _ fs) (
        next
          (step-on_done_wait (made s) w p (f s.next) (done s.next) (λ _. k s.next) fs h'.undone
            (Quiet-free (made s) p h'.quiet))
          stop)
      where
        h' : Pending (made s) p
        h' = made-Pending s p h

    -- The store once the promise is settled, the function having been left on it.
    abbrev pub settled_later : Code S → Store S
    settled_later f = settled p o (waiting p f (made s))

    pub later-fresh : (f : Code S) → p < s.next → (settled_later f).cell s.next ≡ blank true false
    later-fresh f known =
        settled-other p s.next o (waiting p f (made s)) (omega arith)
        ∙ waiting-other (made s) p s.next f (omega arith)
        ∙ made-cell s

    pub later-next : (f : Code S) → (settled_later f).next ≡ suc s.next
    later-next f = settled-next p o (waiting p f (made s)) ∙ waiting-next (made s) p f

    -- The settling calls the function, which finds the outcome.
    pub delivered :
        (b : Outcome → Code S) (gs : List (Frame S))
        → Pending s p
        → Runs
            (claimed p (waiting p (Code.read p b) (made s)))
            (Frame.settling p o ∷ gs)
            (settled_later (Code.read p b))
            (Frame.run none (b o) ∷ Frame.loop p [] ∷ gs)
    delivered b gs h =
        Runs-trans (delivery-Runs (made s) p f o gs (made-Pending s p h))
          (next (step-read s₂ none p b (Frame.loop p [] ∷ gs) o done known) stop)
      where
        f : Code S
        f = Code.read p b

        s₂ : Store S
        s₂ = settled_later f

        done : outcome (s₂.cell p) ≡ some o
        done =
            settled-outcome p o (waiting p f (made s))
              (waiting-outcome (made s) p f ∙ (made-Pending s p h).undone)

        known : valid s₂ p ≡ true
        known = lt→ltb p s₂.next (omega (arith, later-next f, h.quiet.known))

    -- The function returns, and it was the only awaiter.
    pub body_end :
        (s' : Store S) (gs : List (Frame S))
        → Runs s' (Frame.run none done_void ∷ Frame.loop p [] ∷ gs) s' gs
    body_end s' gs =
        next (step-leave s' void (Frame.loop p [] ∷ gs)) (next (step-loop_done s' p gs) stop)

    -- The settling runs the body, and the chained promise gets what the body reports.
    pub late :
        (body : Outcome → Code S → Code S) (gs : List (Frame S)) (s' : Store S) (x : Outcome)
        → Pending s p
        → Reports (settled_later (listener p body)) (body o) s.next s' x
        → Untouched (settled_later (listener p body)) s' s.next
        → Runs
            (claimed p (waiting p (listener p body) (made s)))
            (Frame.settling p o ∷ gs)
            (reported x s.next s')
            gs
    late body gs s' x h b u = Runs-trans (delivered (λ q. body q done_void) gs h) (
        Runs-trans (b none done_void (Frame.loop p [] ∷ gs)) (
          Runs-trans
            (untouched-Runs (settled_later f) s' s.next (omega (arith, later-next f))
              (later-fresh f h.quiet.known) u none x done_void (Frame.loop p [] ∷ gs))
            (body_end _ gs)))
      where
        f : Code S
        f = listener p body

    pub late-outcome :
        (body : Outcome → Code S → Code S) (s' : Store S) (x : Outcome)
        → p < s.next
        → Untouched (settled_later (listener p body)) s' s.next
        → outcome ((reported x s.next s').cell s.next) ≡ some x
    late-outcome body s' x known u =
        untouched-outcome (settled_later (listener p body)) s' s.next
          (omega (arith, later-next (listener p body))) (later-fresh (listener p body) known) u x
