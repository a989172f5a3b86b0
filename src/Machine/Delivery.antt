-- ===== src/Machine/Delivery.antt =====
-- A function left on a pending promise, and its call when the promise is settled.
use jspro_cpp.Prelude.{
  ℕ, suc, ◌≤◌, ◌<◌, ◌≡◌, ◌≢◌, refl, subst, true, Option, none, some, List, [], ◌∷◌, arith, ==_refl,
}
use jspro_cpp.Runtime.Value.{Outcome}
use jspro_cpp.Runtime.Code.{Code, Awaiter}
use jspro_cpp.Runtime.Cell.{outcome, await_function}
use jspro_cpp.Runtime.Store.{Store, write, free}
use jspro_cpp.Machine.Exec.{Frame, exec, exec_code, exec_loop, await_or_go, create_or_go}
use jspro_cpp.Machine.Threads.{step}
use jspro_cpp.Machine.Runs.{Runs, stop, next, Runs-trans}
use jspro_cpp.Machine.Settled.{same-Quiet, Quiet, claimed, settled, settling-Runs}
use jspro_cpp.Machine.Returns.{made}

module _ {S : Type 0} where
  -- The store in which the function has been left on `p`.
  pub waiting : ℕ → Code S → Store S → Store S
  waiting p f s = write p (await_function f (s.cell p)).0 s

  -- A promise that is pending and has no awaiters yet.
  pub record Pending (s : Store S) (p : ℕ) : Type 0 where
    pub quiet : Quiet s p
    pub undone : outcome (s.cell p) ≡ none
    pub alone : (s.cell p).awaiters ≡ []

  -- `r` is as it was, and no promise has gone.
  pub record Untouched (s s' : Store S) (r : ℕ) : Type 0 where
    pub same : s'.cell r ≡ s.cell r
    pub grown : s.next ≤ s'.next

  pub step-on_done_wait :
      (s : Store S) (w : Option ℕ) (p : ℕ) (f : Code S) (k : Outcome → Code S) (d : ℕ → Code S)
      (fs : List (Frame S))
      → outcome (s.cell p) ≡ none
      → free s p ≡ true
      → step s (Frame.run w (Code.on_done p f k d) ∷ fs)
        ≡ some (waiting p f s, Frame.run w (d (suc (s.cell p).use_count)) ∷ fs)
  unfolding step exec exec_code await_or_go waiting await_function
  step-on_done_wait s w p f k d fs e v = rw (e, await_or_go) (rw v)

  pub Quiet-free : (s : Store S) (p : ℕ) → Quiet s p → free s p ≡ true
  Quiet-free s p h = ground (arith, h.known, h.unread)

  -- Making a promise leaves an older one alone.
  pub made-other : (s : Store S) (p : ℕ) → p < s.next → (made s).cell p ≡ s.cell p
  made-other s p h = ground arith

  pub same-Pending :
      (s s' : Store S) (p : ℕ)
      → s.next ≤ s'.next
      → s'.cell p ≡ s.cell p
      → Pending s p
      → Pending s' p
  same-Pending s s' p n e h = record {
    quiet = same-Quiet s s' p n e h.quiet;
    undone = rw e h.undone;
    alone = rw e h.alone;
  }

  pub made-Pending : (s : Store S) (p : ℕ) → Pending s p → Pending (made s) p
  made-Pending s p h = same-Pending s (made s) p (omega arith) (made-other s p h.quiet.known) h

  pub step-on_done_or_create_wait :
      (s : Store S) (w : Option ℕ) (p : ℕ) (f : ℕ → Code S) (k : Outcome → Code S) (d : ℕ → Code S)
      (fs : List (Frame S))
      → Pending s p
      → step s (Frame.run w (Code.on_done_or_create p f k d) ∷ fs)
        ≡ some (waiting p (f s.next) (made s), Frame.run w (d s.next) ∷ fs)
  unfolding step exec exec_code create_or_go waiting await_function
  step-on_done_or_create_wait s w p f k d fs h =
      rw (h.undone, create_or_go) (rw (Quiet-free s p h.quiet, made-other s p h.quiet.known))

  pub waiting-other :
      (s : Store S) (p q : ℕ) (f : Code S) → p ≢ q → (waiting p f s).cell q ≡ s.cell q
  unfolding waiting
  waiting-other s p q f n = ground arith

  pub waiting-cell :
      (s : Store S) (p : ℕ) (f : Code S) → (waiting p f s).cell p ≡ (await_function f (s.cell p)).0
  unfolding waiting
  waiting-cell s p f = rw (==_refl p) refl

  pub waiting-readers :
      (s : Store S) (p q : ℕ) (f : Code S) → ((waiting p f s).cell q).readers ≡ (s.cell q).readers
  unfolding waiting await_function
  waiting-readers s p q f = ground arith

  pub waiting-shared : (s : Store S) (p : ℕ) (f : Code S) → (waiting p f s).shared ≡ s.shared
  unfolding waiting
  waiting-shared s p f = refl

  pub waiting-next : (s : Store S) (p : ℕ) (f : Code S) → (waiting p f s).next ≡ s.next
  unfolding waiting
  waiting-next s p f = refl

  pub waiting-outcome :
      (s : Store S) (p : ℕ) (f : Code S) → outcome ((waiting p f s).cell p) ≡ outcome (s.cell p)
  unfolding waiting await_function
  waiting-outcome s p f = rw (==_refl p)

  waiting-Quiet : (s : Store S) (p : ℕ) (f : Code S) → Quiet s p → Quiet (waiting p f s) p
  unfolding waiting await_function
  waiting-Quiet s p f h = record {
    known = h.known;
    open_ = rw (==_refl p) h.open_;
    unread = rw (==_refl p) h.unread;
    idle = rw (==_refl p) h.idle;
  }

  step-loop_function :
      (s : Store S) (p id : ℕ) (f : Code S) (as' : List (Awaiter S)) (fs : List (Frame S))
      → step s (Frame.loop p (Awaiter.function id f ∷ as') ∷ fs)
        ≡ some (s, Frame.run none f ∷ Frame.loop p as' ∷ fs)
  unfolding step exec exec_loop
  step-loop_function s p id f as' fs = refl

  waiting-awaiters :
      (s : Store S) (p : ℕ) (f : Code S)
      → (s.cell p).awaiters ≡ []
      → ((waiting p f s).cell p).awaiters ≡ Awaiter.function (suc (s.cell p).use_count) f ∷ []
  unfolding waiting await_function
  waiting-awaiters s p f e = rw (==_refl p) (rw e)

  -- The settling calls the function, with the outcome stored.
  pub delivery-Runs :
      (s : Store S) (p : ℕ) (f : Code S) (o : Outcome) (gs : List (Frame S))
      → Pending s p
      → Runs
          (claimed p (waiting p f s))
          (Frame.settling p o ∷ gs)
          (settled p o (waiting p f s))
          (Frame.run none f ∷ Frame.loop p [] ∷ gs)
  delivery-Runs s p f o gs h =
      Runs-trans
        (subst
          (λ as'.
            Runs (claimed p (waiting p f s)) (Frame.settling p o ∷ gs) (settled p o (waiting p f s))
              (Frame.loop p as' ∷ gs))
          (waiting-awaiters s p f h.alone)
          (settling-Runs (waiting p f s) p o gs (waiting-Quiet s p f h.quiet)))
        (next (step-loop_function _ p (suc (s.cell p).use_count) f [] gs) stop)
