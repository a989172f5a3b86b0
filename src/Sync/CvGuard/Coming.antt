-- ===== src/Sync/CvGuard/Coming.antt =====
-- The guard takes the mutex again. src/CVPromise.cpp, src/Mutex.cpp
use jspro_cpp.Prelude.{
  ℕ, suc, ◌<◌, ◌≡◌, refl, sym, ap, subst, ◌∙◌, true, false, Option, some, List, [], ◌∷◌, arith,
  ==_refl, lt→ltb,
}
use jspro_cpp.Runtime.Value.{Value, void, fulfilled, rejected}
use jspro_cpp.Runtime.Code.{Code}
use jspro_cpp.Runtime.Cell.{blank, outcome}
use jspro_cpp.Runtime.Store.{Store}
use jspro_cpp.Machine.Exec.{Frame}
use jspro_cpp.Machine.Runs.{Runs, stop, next, Runs-trans, step-locked, step-co_await, step-loop_end}
use jspro_cpp.Machine.Unsettled.{started, Running, step-start}
use jspro_cpp.Machine.Coroutine.{
  ended, end-Runs, ended-outcome, ended-other, ended-next, ended-shared, ended-readers,
}
use jspro_cpp.Combinators.Fun.{Fun, make_promise, done_void}
use jspro_cpp.Combinators.Laws.AsyncLaws.{Makes}
use jspro_cpp.Combinators.Laws.Tracked.{Usable, Waits, same-Waits}
use jspro_cpp.Sync.Mutex.{LockGuard}
use jspro_cpp.Sync.Mutex.Line.{Parked, Link-Same}
use jspro_cpp.Sync.Mutex.Queue.{Free, Held, queued, queued-other, queued-next, queued-Parked}
use jspro_cpp.Sync.Mutex.Locking.{
  taken, taken-Same, taken-outcome, taken-Held, taken-state, Free-Runs,
}
use jspro_cpp.Sync.CvGuard.{Site, site_mutex, set_own, relock_on, relock}

-- A guard that holds its mutex, and one that does not.
abbrev pub owning : LockGuard
owning = record { own_lock = true; has_mutex = true }

abbrev pub away : LockGuard
away = record { own_lock = false; has_mutex = true }

module _ (s : Store Site) (free : Free s) (unowned : s.shared.guard ≡ away) where
  -- The flag is set, in the coroutine that the continuation starts.
  abbrev flagged : Store Site
  flagged = record (started s) { shared = set_own true s.shared }

  old : (p : ℕ) → p < s.next → flagged.cell p ≡ s.cell p
  old p l = ground (arith, l)

  flagged-Free : Free flagged
  flagged-Free = record {
    handle = free.handle;
    known = omega (arith, free.known);
    open_ = ap outcome (old s.shared.mutex.promise free.known) ∙ free.open_;
  }

  -- The `Lock` goes through, on a promise and with a coroutine that are new.
  abbrev locked_on : Store Site
  locked_on = taken (queued flagged) (suc s.next) (suc (suc s.next))

  parked : Parked (queued flagged) (suc s.next)
  parked = queued-Parked flagged

  locked_on-other : (p : ℕ) → p < suc s.next → locked_on.cell p ≡ flagged.cell p
  locked_on-other p l =
      (taken-Same (queued flagged) (suc s.next) (suc (suc s.next)) p parked (omega (arith, l))).same
      ∙ queued-other flagged p l

  locked_on-grown : suc (suc s.next) < locked_on.next
  locked_on-grown = omega (
    arith,
    (taken-Same (queued flagged) (suc s.next) (suc (suc s.next)) 0 parked (omega arith)).grown,
    queued-next flagged,
  )

  locked_on-coroutine : locked_on.cell s.next ≡ blank false true
  locked_on-coroutine = locked_on-other s.next (omega arith) ∙ rw (==_refl s.next) refl

  locked_on-Running : Running locked_on s.next
  locked_on-Running = record {
    known = omega (arith, locked_on-grown);
    open_ = rw locked_on-coroutine refl;
    unread = rw locked_on-coroutine refl;
    runs = rw locked_on-coroutine refl;
    direct = rw locked_on-coroutine refl;
  }

  -- The store once the guard has the mutex and the coroutine has ended.
  pub back : Store Site
  back = ended s.next (fulfilled void) locked_on

  relock-Runs :
      (w : Option ℕ) (fs : List (Frame Site))
      → Runs (started s) (Frame.run w relock ∷ fs) locked_on (
          Frame.run w (
            Code.co_await
              (suc s.next)
              λ o. elim o [ rejected e ↦ Code.throw e | fulfilled v ↦ done_void ])
          ∷ fs)
  unfolding relock relock_on
  relock-Runs w fs = next (step-locked (started s) w _ _ fs) (
      subst
        (λ g. Runs (started s) (Frame.run w (relock_on g) ∷ fs) locked_on (
          Frame.run w (
            Code.co_await (suc s.next)
              λ o. elim o [ rejected e ↦ Code.throw e | fulfilled v ↦ done_void ])
          ∷ fs))
        (sym unowned)
        (next (step-locked (started s) w _ _ fs) (Free-Runs flagged w _ fs flagged-Free)))

  -- The continuation makes a promise that is fulfilled.
  pub back-Makes : (v : Value) → Makes s (Fun.coroutine λ _. relock) v back s.next
  unfolding make_promise back
  back-Makes v w k fs = next (step-start s w (λ _. relock) k fs) (
      Runs-trans (relock-Runs (some s.next) (Frame.run w (k s.next) ∷ fs)) (
        next
          (step-co_await locked_on (some s.next) (suc s.next) _ (Frame.run w (k s.next) ∷ fs)
            (fulfilled void) (taken-outcome (queued flagged) (suc s.next) (suc (suc s.next)) parked)
            (lt→ltb (suc s.next) locked_on.next (omega (arith, locked_on-grown))))
          (Runs-trans
            (end-Runs locked_on s.next (fulfilled void) locked_on-Running
              (Frame.run w (k s.next) ∷ fs))
            (rw locked_on-coroutine
              (next (step-loop_end _ s.next (Frame.run w (k s.next) ∷ fs)) stop)))))

  pub back-Usable : Usable back s.next (fulfilled void)
  unfolding back
  back-Usable = record {
    known = omega (arith, back-next, locked_on-grown);
    done =
        ended-outcome locked_on s.next (fulfilled void) locked_on-Running
          (rw locked_on-coroutine refl);
    unread =
        ended-readers locked_on s.next (fulfilled void) locked_on-Running
        ∙ rw locked_on-coroutine refl;
  }
    where
      back-next : back.next ≡ locked_on.next
      back-next = ended-next locked_on s.next (fulfilled void) locked_on-Running

  pub back-old : (p : ℕ) → p < s.next → back.cell p ≡ s.cell p
  unfolding back
  back-old p l =
      ended-other locked_on s.next (fulfilled void) locked_on-Running p (omega (arith, l))
      ∙ locked_on-other p (omega (arith, l))
      ∙ old p l

  pub back-grown : suc (suc s.next) < back.next
  unfolding back
  back-grown =
      omega (arith, ended-next locked_on s.next (fulfilled void) locked_on-Running, locked_on-grown)

  pub back-Waits : (r : ℕ) → Waits s r → Waits back r
  back-Waits r h =
      same-Waits s back r (omega (arith, back-grown)) (back-old r h.pending.quiet.known) h

  back-state : back.shared ≡ locked_on.shared
  unfolding back
  back-state = ended-shared locked_on s.next (fulfilled void) locked_on-Running

  pub back-owned : back.shared.guard.own_lock ≡ true
  unfolding queued
  back-owned =
      ap (λ x. x.guard.own_lock)
        (back-state ∙ taken-state (queued flagged) (suc s.next) (suc (suc s.next)) parked)

  pub back-Held : Held back (suc (suc s.next)) []
  unfolding back
  back-Held =
      let h = taken-Held flagged in
      record {
        handle = ap (λ x. x.mutex.resolve) back-state ∙ h.handle;
        line = (
          h.line.0 ∙ sym (ap (λ x. x.mutex.promise) back-state),
          Link-Same locked_on back (suc (suc s.next)) []
              (record {
                grown =
                    omega (arith, ended-next locked_on s.next (fulfilled void) locked_on-Running);
                same =
                    ended-other locked_on s.next (fulfilled void) locked_on-Running
                      (suc (suc s.next)) (omega arith);
              })
              h.line.1,
        );
      }
