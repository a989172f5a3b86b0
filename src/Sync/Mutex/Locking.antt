-- ===== src/Sync/Mutex/Locking.antt =====
-- `Lock` against the queue that a mutex is. src/Mutex.cpp
use jspro_cpp.Prelude.{
  ℕ, suc, ◌<◌, ◌≡◌, ◌≢◌, sym, ap, subst, ◌∙◌, Option, none, some, List, [], ◌∷◌, ◌++◌, arith,
  ==_refl, lt→ltb,
}
use jspro_cpp.Runtime.Value.{void, fulfilled}
use jspro_cpp.Runtime.Code.{Code, Awaiter}
use jspro_cpp.Runtime.Cell.{outcome, await_coroutine}
use jspro_cpp.Runtime.Store.{Store, write}
use jspro_cpp.Machine.Exec.{Frame}
use jspro_cpp.Machine.Runs.{Runs, stop, next, Runs-trans, step-co_await, step-park, step-loop_end}
use jspro_cpp.Machine.Coroutine.{ended, ended-outcome, ended-other, ended-next, ended-shared}
use jspro_cpp.Sync.Mutex.{Mutex, mutex_of, lock_granted, lock}
use jspro_cpp.Sync.Mutex.Line.{
  Link, Parked, Line, Same, Link-Same, Parked-Same, Line-known, Line-grow,
}
use jspro_cpp.Sync.Mutex.Queue.{
  Free, Held, queued, enter-Runs, queued-other, queued-coroutine, queued-next, queued-Parked,
  queued-Link, granted, grant-Runs, Parked-granted,
}
use jspro_cpp.Runtime.Place.{Place}

module _ {S : Type 0} ⦃at : Place Mutex S⦄ where
  -- The store with the mutex taken and the coroutine ended.
  unfoldable pub taken : Store S → ℕ → ℕ → Store S
  taken s q r = ended q (fulfilled void) (granted r s)

  pub taken-state :
      (s : Store S) (q r : ℕ)
      → Parked s q
      → (taken s q r).shared ≡ at.put (record (mutex_of s) { resolve = some r }) s.shared
  unfolding taken granted
  taken-state s q r h = ended-shared (granted r s) q (fulfilled void) (Parked-granted s q r h)

  taken-mutex :
      (s : Store S) (q r : ℕ)
      → Parked s q
      → mutex_of (taken s q r) ≡ record (mutex_of s) { resolve = some r }
  taken-mutex s q r h =
      ap at.get (taken-state s q r h)
      ∙ at.get_put (record (mutex_of s) { resolve = some r }) s.shared

  pub taken-handle :
      (s : Store S) (q r : ℕ) → Parked s q → (mutex_of (taken s q r)).resolve ≡ some r
  taken-handle s q r h = ap (λ m. m.resolve) (taken-mutex s q r h)

  pub taken-promise :
      (s : Store S) (q r : ℕ) → Parked s q → (mutex_of (taken s q r)).promise ≡ (mutex_of s).promise
  taken-promise s q r h = ap (λ m. m.promise) (taken-mutex s q r h)

  pub taken-Same : (s : Store S) (q r p : ℕ) → Parked s q → q ≢ p → Same s (taken s q r) p
  unfolding taken granted
  taken-Same s q r p h n = record {
    grown = omega (arith, ended-next (granted r s) q (fulfilled void) (Parked-granted s q r h));
    same = ended-other (granted r s) q (fulfilled void) (Parked-granted s q r h) p n;
  }

  pub taken-outcome :
      (s : Store S) (q r : ℕ) → Parked s q → outcome ((taken s q r).cell q) ≡ some (fulfilled void)
  unfolding taken granted
  taken-outcome s q r h =
      ended-outcome (granted r s) q (fulfilled void) (Parked-granted s q r h) h.undone

  queued-handle : (s : Store S) → mutex_of (queued s) ≡ record (mutex_of s) { promise = suc s.next }
  unfolding queued
  queued-handle s = at.get_put (record (mutex_of s) { promise = suc s.next }) s.shared

  -- A `Lock` on a mutex that nobody holds goes through at once.
  pub Free-Runs :
      (s : Store S) (w : Option ℕ) (k : ℕ → Code S) (fs : List (Frame S))
      → Free s
      → Runs s
          (Frame.run w (lock k) ∷ fs)
          (taken (queued s) s.next (suc s.next))
          (Frame.run w (k s.next) ∷ fs)
  unfolding taken
  Free-Runs s w k fs h = Runs-trans (enter-Runs s w k fs) (
      next
        (step-co_await (queued s) (some s.next) (mutex_of s).promise (lock_granted (suc s.next))
          (Frame.run w (k s.next) ∷ fs) (fulfilled void)
          (rw (queued-other s (mutex_of s).promise h.known) h.open_)
          (lt→ltb (mutex_of s).promise (queued s).next (omega (arith, queued-next s, h.known))))
        (Runs-trans
          (grant-Runs (queued s) s.next (suc s.next) (Frame.run w (k s.next) ∷ fs)
            (ap (λ m. m.resolve) (queued-handle s) ∙ h.handle) (queued-Parked s))
          (rw (queued-coroutine s)
            (next (step-loop_end _ s.next (Frame.run w (k s.next) ∷ fs)) stop))))

  -- The `Lock` that went through holds the mutex.
  pub taken-Held : (s : Store S) → Held (taken (queued s) s.next (suc s.next)) (suc s.next) []
  taken-Held s = record {
    handle = taken-handle (queued s) s.next (suc s.next) parked;
    line = (
      sym (
          taken-promise (queued s) s.next (suc s.next) parked
          ∙ ap (λ m. m.promise) (queued-handle s)),
      Link-Same (queued s) _ (suc s.next) []
          (taken-Same (queued s) s.next (suc s.next) (suc s.next) parked (omega arith))
          (queued-Link s),
    );
  }
    where
      parked : Parked (queued s) s.next
      parked = queued-Parked s

  -- On a mutex that nobody holds, `Lock` returns a promise that is fulfilled before it returns, and
  -- the mutex is held by that `Lock`, with nobody waiting.
  pub lock-Free :
      (s : Store S) (w : Option ℕ) (k : ℕ → Code S) (fs : List (Frame S))
      → Free s
      → (s' : Store S) × Runs s (Frame.run w (lock k) ∷ fs) s' (Frame.run w (k s.next) ∷ fs)
        × (outcome (s'.cell s.next) ≡ some (fulfilled void))
        × Held s' (suc s.next) []
  lock-Free s w k fs h = (
    taken (queued s) s.next (suc s.next),
    Free-Runs s w k fs h,
    taken-outcome (queued s) s.next (suc s.next) (queued-Parked s),
    taken-Held s,
  )

  -- The store in which the coroutine of a `Lock` waits for the last promise.
  joined : Store S → Store S
  joined s =
      write (mutex_of s).promise
        (await_coroutine (some s.next) (lock_granted (suc s.next))
          ((queued s).cell (mutex_of s).promise))
        (queued s)

  joined-Same : (s : Store S) (p : ℕ) → p ≢ (mutex_of s).promise → Same (queued s) (joined s) p
  unfolding joined
  joined-Same s p n = record { grown = omega arith; same = ground (arith, n) }

  joined-Old :
      (s : Store S) (p : ℕ)
      → p < (mutex_of s).promise
      → (mutex_of s).promise < s.next
      → Same s (joined s) p
  joined-Old s p l m = record {
    grown = omega (arith, (joined-Same s p (omega arith)).grown, queued-next s);
    same = (joined-Same s p (omega arith)).same ∙ queued-other s p (omega arith);
  }

  joined-cell :
      (s : Store S)
      → (mutex_of s).promise < s.next
      → (joined s).cell (mutex_of s).promise ≡ record (s.cell (mutex_of s).promise) {
        use_count = suc (s.cell (mutex_of s).promise).use_count;
        notified = suc (s.cell (mutex_of s).promise).notified;
        awaiters =
            (s.cell (mutex_of s).promise).awaiters
            ++ (Awaiter.coroutine (some s.next) (lock_granted (suc s.next)) ∷ []);
      }
  unfolding joined await_coroutine
  joined-cell s l = rw (==_refl (mutex_of s).promise, queued-other s (mutex_of s).promise l)

  joined-Link :
      (s : Store S)
      → Link s (mutex_of s).promise []
      → Link
          (joined s)
          (mutex_of s).promise
          (Awaiter.coroutine (some s.next) (lock_granted (suc s.next)) ∷ [])
  unfolding joined
  joined-Link s h = record {
    quiet = record {
      known = omega (arith, queued-next s, h.quiet.known);
      open_ = rw (joined-cell s h.quiet.known) h.quiet.open_;
      unread = rw (joined-cell s h.quiet.known) h.quiet.unread;
      idle = rw (joined-cell s h.quiet.known) h.quiet.idle;
    };
    undone = rw (joined-cell s h.quiet.known) h.undone;
    queue = rw (joined-cell s h.quiet.known) (rw h.queue);
  }

  joined-handle : (s : Store S) → (mutex_of (joined s)).resolve ≡ (mutex_of s).resolve
  unfolding joined
  joined-handle s = ap (λ m. m.resolve) (queued-handle s)

  joined-promise : (s : Store S) → (mutex_of (joined s)).promise ≡ suc s.next
  unfolding joined
  joined-promise s = ap (λ m. m.promise) (queued-handle s)

  held-Runs :
      (s : Store S) (w : Option ℕ) (k : ℕ → Code S) (fs : List (Frame S))
      → Link s (mutex_of s).promise []
      → Runs s (Frame.run w (lock k) ∷ fs) (joined s) (Frame.run w (k s.next) ∷ fs)
  unfolding joined
  held-Runs s w k fs h = Runs-trans (enter-Runs s w k fs) (
      next
        (step-park (queued s) (some s.next) (mutex_of s).promise (lock_granted (suc s.next))
          (Frame.run w (k s.next) ∷ fs)
          (rw (queued-other s (mutex_of s).promise h.quiet.known) h.undone)
          (ground (
            arith,
            queued-other s (mutex_of s).promise h.quiet.known,
            queued-next s,
            h.quiet.known,
            h.quiet.unread,
          )))
        stop)

  -- On a mutex that is held, with any line of waiting `Lock`s, `Lock` returns a promise that is
  -- pending; the holder and the line stay, and the new `Lock` joins the line at its end.
  pub lock-Held :
      (s : Store S) (r : ℕ) (ws : List (ℕ × ℕ)) (w : Option ℕ) (k : ℕ → Code S)
      (fs : List (Frame S))
      → Held s r ws
      → (s' : Store S) × Runs s (Frame.run w (lock k) ∷ fs) s' (Frame.run w (k s.next) ∷ fs)
        × (outcome (s'.cell s.next) ≡ none)
        × Held s' r (ws ++ ((s.next, suc s.next) ∷ []))
  lock-Held s r ws w k fs h =
      let (l, last) = Line-known s r ws (mutex_of s).promise h.line in
      let parked : Parked (joined s) s.next =
        Parked-Same (queued s) (joined s) s.next
          (joined-Same s s.next (omega (arith, last.quiet.known))) (queued-Parked s) in
      (
        joined s,
        held-Runs s w k fs last,
        parked.undone,
        record {
          handle = joined-handle s ∙ h.handle;
          line =
              subst (Line (joined s) r (ws ++ ((s.next, suc s.next) ∷ []))) (sym (joined-promise s))
                (Line-grow s (joined s) r ws (mutex_of s).promise s.next (suc s.next)
                  (λ p m. joined-Old s p m last.quiet.known) last.quiet.known (omega arith)
                  (joined-Link s last) parked
                  (Link-Same (queued s) (joined s) (suc s.next) []
                    (joined-Same s (suc s.next) (omega (arith, last.quiet.known))) (queued-Link s))
                  h.line);
        },
      )
