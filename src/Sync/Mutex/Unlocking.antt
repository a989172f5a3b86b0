-- ===== src/Sync/Mutex/Unlocking.antt =====
-- `UnLock` against the queue that a mutex is. src/Mutex.cpp
use jspro_cpp.Prelude.{
  ℕ, ◌<◌, ◌≡◌, ◌≢◌, refl, sym, ap, subst, ◌∙◌, Option, none, some, List, [], ◌∷◌, arith, lt→ltb,
}
use jspro_cpp.Runtime.Value.{void, Outcome, fulfilled}
use jspro_cpp.Runtime.Code.{Code, Awaiter}
use jspro_cpp.Runtime.Cell.{outcome}
use jspro_cpp.Runtime.Store.{Store}
use jspro_cpp.Machine.Exec.{Frame, exec, exec_loop, read_outcome}
use jspro_cpp.Machine.Threads.{step}
use jspro_cpp.Machine.Runs.{Runs, stop, next, Runs-trans, step-locked, step-loop_end}
use jspro_cpp.Machine.Settled.{
  Quiet, settled, settled-outcome, settled-other, settled-next, settled-shared, resolve-Runs,
}
use jspro_cpp.Sync.Mutex.{Mutex, mutex_of, with_mutex, lock_granted, unlock}
use jspro_cpp.Sync.Mutex.Line.{Link, Parked, Line, Same, Parked-Same, Line-Same}
use jspro_cpp.Sync.Mutex.Queue.{Free, Held, grant-Runs}
use jspro_cpp.Sync.Mutex.Locking.{taken, taken-handle, taken-promise, taken-Same, taken-outcome}
use jspro_cpp.Runtime.Place.{Place}

module _ {S : Type 0} ⦃at : Place Mutex S⦄ where
  -- The store with the handle taken out of the mutex, and then with its promise resolved.
  dropped : Store S → Store S
  dropped s = with_mutex (record (mutex_of s) { resolve = none }) s

  pub left : Store S → ℕ → Store S
  left s r = settled r (fulfilled void) (dropped s)

  dropped-Quiet : (s : Store S) (r : ℕ) → Quiet s r → Quiet (dropped s) r
  unfolding dropped
  dropped-Quiet s r h = record {
    known = h.known;
    open_ = h.open_;
    unread = h.unread;
    idle = h.idle;
  }

  pub left-Runs :
      (s : Store S) (r : ℕ) (as' : List (Awaiter S)) (w : Option ℕ) (k : Code S)
      (fs : List (Frame S))
      → (mutex_of s).resolve ≡ some r
      → Link s r as'
      → Runs s (Frame.run w (unlock k) ∷ fs) (left s r) (Frame.loop r as' ∷ Frame.run w k ∷ fs)
  unfolding unlock left dropped
  left-Runs s r as' w k fs e h = next (step-locked s w _ _ fs) (
      rw e (
        subst
          (λ x.
            Runs (dropped s) (Frame.run w (Code.resolve r void λ _. k) ∷ fs) (left s r)
              (Frame.loop r x ∷ Frame.run w k ∷ fs))
          h.queue (resolve-Runs (dropped s) w r void (λ _. k) fs (dropped-Quiet s r h.quiet))))

  left-outcome :
      (s : Store S) (r : ℕ) (as' : List (Awaiter S))
      → Link s r as'
      → outcome ((left s r).cell r) ≡ some (fulfilled void)
  unfolding left dropped
  left-outcome s r as' h = settled-outcome r (fulfilled void) _ h.undone

  pub left-Same : (s : Store S) (r p : ℕ) → r ≢ p → Same s (left s r) p
  unfolding left dropped
  left-Same s r p n = record {
    grown = omega (arith, settled-next r (fulfilled void) (dropped s));
    same = settled-other r p (fulfilled void) _ n;
  }

  pub left-state :
      (s : Store S) (r : ℕ)
      → (left s r).shared ≡ at.put (record (mutex_of s) { resolve = none }) s.shared
  unfolding left dropped
  left-state s r = settled-shared r (fulfilled void) (dropped s)

  left-shared : (s : Store S) (r : ℕ) → mutex_of (left s r) ≡ record (mutex_of s) { resolve = none }
  left-shared s r =
      ap at.get (left-state s r) ∙ at.get_put (record (mutex_of s) { resolve = none }) s.shared

  pub left-next : (s : Store S) (r : ℕ) → (left s r).next ≡ s.next
  unfolding left dropped
  left-next s r = settled-next r (fulfilled void) (dropped s)

  pub left-Free : (s : Store S) (r : ℕ) → r ≡ (mutex_of s).promise → Link s r [] → Free (left s r)
  left-Free s r e h = record {
    handle = ap (λ m. m.resolve) (left-shared s r);
    known =
        subst (λ x. x < (left s r).next) (sym same) (omega (arith, left-next s r, h.quiet.known));
    open_ =
        subst (λ x. outcome ((left s r).cell x) ≡ some (fulfilled void)) (sym same)
          (left-outcome s r [] h);
  }
    where
      same : (mutex_of (left s r)).promise ≡ r
      same = ap (λ m. m.promise) (left-shared s r) ∙ sym e

  step-wake :
      (s : Store S) (r : ℕ) (w : Option ℕ) (k : Outcome → Code S) (fs : List (Frame S))
      → step s (Frame.loop r (Awaiter.coroutine w k ∷ []) ∷ fs)
        ≡ some (s, Frame.resume w r k ∷ Frame.loop r [] ∷ fs)
  unfolding step exec exec_loop
  step-wake s r w k fs = refl

  step-resume :
      (s : Store S) (r : ℕ) (w : Option ℕ) (k : Outcome → Code S) (fs : List (Frame S))
      (o : Outcome)
      → r < s.next
      → outcome (s.cell r) ≡ some o
      → step s (Frame.resume w r k ∷ fs) ≡ some (s, Frame.run w (k o) ∷ fs)
  unfolding step exec read_outcome
  step-resume s r w k fs o l e = rw (e, read_outcome) (rw (lt→ltb r s.next l))

  -- On a mutex that is held and that no other `Lock` waits for, `UnLock` comes to its end and leaves
  -- the mutex held by nobody.
  pub unlock_last :
      (s : Store S) (r : ℕ) (w : Option ℕ) (k : Code S) (fs : List (Frame S))
      → Held s r []
      → (s' : Store S) × Runs s (Frame.run w (unlock k) ∷ fs) s' (Frame.run w k ∷ fs) × Free s'
  unlock_last s r w k fs h = (
    left s r,
    Runs-trans (left-Runs s r [] w k fs h.handle h.line.1)
        (next (step-loop_end (left s r) r (Frame.run w k ∷ fs)) stop),
    left-Free s r h.line.0 h.line.1,
  )

  wake-Runs :
      (s : Store S) (q r : ℕ) (as' : List (Awaiter S)) (fs : List (Frame S))
      → (mutex_of s).resolve ≡ none
      → Parked s q
      → (s.cell q).awaiters ≡ as'
      → Runs s
          (Frame.run (some q) (lock_granted r (fulfilled void)) ∷ fs)
          (taken s q r)
          (Frame.loop q as' ∷ fs)
  unfolding taken
  wake-Runs s q r as' fs e h a =
      subst
        (λ x.
          Runs s (Frame.run (some q) (lock_granted r (fulfilled void)) ∷ fs) (taken s q r)
            (Frame.loop q x ∷ fs))
        a (grant-Runs s q r fs e h)

  -- On a mutex that is held and that other `Lock`s wait for, `UnLock` gives the mutex to the first in
  -- the line: the promise of that `Lock` is fulfilled, the others stay in the line in their order,
  -- and the awaiters of that promise are handed over to be run, before `UnLock` comes to its end.
  pub unlock_next :
      (s : Store S) (r q r' : ℕ) (ws : List (ℕ × ℕ)) (w : Option ℕ) (k : Code S)
      (fs : List (Frame S))
      → Held s r ((q, r') ∷ ws)
      → (s' : Store S) × Runs s
          (Frame.run w (unlock k) ∷ fs)
          s'
          (Frame.loop q (s.cell q).awaiters ∷ Frame.loop r [] ∷ Frame.run w k ∷ fs)
        × (outcome (s'.cell q) ≡ some (fulfilled void))
        × Held s' r' ws
  unlock_next s r q r' ws w k fs h =
      let (l₁, l₂, link, parked, line) = h.line in
      let same : (p : ℕ) → r < p → Same s (left s r) p =
        λ p l. left-Same s r p (omega (arith, l)) in
      let parked' : Parked (left s r) q = Parked-Same s (left s r) q (same q l₁) parked in
      let link' = left-outcome s r _ link in
      let last : (mutex_of (taken (left s r) q r')).promise ≡ (mutex_of s).promise =
        taken-promise (left s r) q r' parked' ∙ ap (λ m. m.promise) (left-shared s r) in
      (
        taken (left s r) q r',
        Runs-trans (left-Runs s r _ w k fs h.handle link) (
            next (step-wake (left s r) r (some q) (lock_granted r') (Frame.run w k ∷ fs)) (
              next
                (step-resume (left s r) r (some q) (lock_granted r')
                  (Frame.loop r [] ∷ Frame.run w k ∷ fs) (fulfilled void)
                  (omega (arith, left-next s r, link.quiet.known)) link')
                (wake-Runs (left s r) q r' _ (Frame.loop r [] ∷ Frame.run w k ∷ fs)
                  (ap (λ m. m.resolve) (left-shared s r)) parked'
                  (ap (λ c. c.awaiters) (same q l₁).same)))),
        taken-outcome (left s r) q r' parked',
        record {
          handle = taken-handle (left s r) q r' parked';
          line = subst (Line (taken (left s r) q r') r' ws) (sym last) (
              Line-Same (left s r) (taken (left s r) q r') r' ws (mutex_of s).promise
                (λ p l. taken-Same (left s r) q r' p parked' (omega (arith, l₂, l)))
                (Line-Same s (left s r) r' ws (mutex_of s).promise
                  (λ p l. same p (omega (arith, l₁, l₂, l))) line));
        },
      )
