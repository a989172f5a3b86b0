-- ===== src/Sync/Mutex/Queue.antt =====
-- `Lock` and `Unlock`, against the queue that a mutex is. src/Mutex.cpp
use jspro_cpp.Prelude.{
  ℕ, suc, ◌<◌, ◌≡◌, refl, true, false, Option, none, some, List, [], ◌∷◌, arith,
}
use jspro_cpp.Runtime.Value.{void, fulfilled}
use jspro_cpp.Runtime.Code.{Code}
use jspro_cpp.Runtime.Cell.{blank, outcome}
use jspro_cpp.Runtime.Store.{Store}
use jspro_cpp.Machine.Exec.{Frame}
use jspro_cpp.Machine.Runs.{Runs, stop, next, Runs-trans, step-locked}
use jspro_cpp.Machine.Returns.{made, create-Runs}
use jspro_cpp.Machine.Unsettled.{Running, started, step-start}
use jspro_cpp.Machine.Coroutine.{ended, end-Runs}
use jspro_cpp.Sync.Mutex.{Mutex, mutex_of, with_mutex, lock_granted, lock_body, lock}
use jspro_cpp.Sync.Mutex.Line.{Link, Parked, Line}
use jspro_cpp.Runtime.Place.{Place}

module _ {S : Type 0} ⦃at : Place Mutex S⦄ where
  -- Nobody holds the mutex.
  pub record Free (s : Store S) : Type 0 where
    pub handle : (mutex_of s).resolve ≡ none
    pub known : (mutex_of s).promise < s.next
    pub open_ : outcome (s.cell (mutex_of s).promise) ≡ some (fulfilled void)

  -- The `Lock` with the promise `r` holds the mutex, and these wait, the first of them next.
  pub record Held (s : Store S) (r : ℕ) (ws : List (ℕ × ℕ)) : Type 0 where
    pub handle : (mutex_of s).resolve ≡ some r
    pub line : Line s r ws (mutex_of s).promise

  -- The store once `Lock` has queued its promise.
  unfoldable pub queued : Store S → Store S
  queued s =
      let s₁ = made (started s) in with_mutex (record (mutex_of s₁) { promise = suc s.next }) s₁

  -- `Lock` comes to its `co_await` on the promise that was the last one.
  pub enter-Runs :
      (s : Store S) (w : Option ℕ) (k : ℕ → Code S) (fs : List (Frame S))
      → Runs s (Frame.run w (lock k) ∷ fs) (queued s) (
          Frame.run (some s.next) (Code.co_await (mutex_of s).promise (lock_granted (suc s.next)))
          ∷ Frame.run w (k s.next)
          ∷ fs)
  unfolding lock lock_body queued
  enter-Runs s w k fs = next (step-start s w (λ _. lock_body) k fs) (
      Runs-trans (create-Runs (started s) (some s.next) _ (Frame.run w (k s.next) ∷ fs)) (
        next (step-locked (made (started s)) (some s.next) _ _ (Frame.run w (k s.next) ∷ fs)) stop))

  pub queued-other : (s : Store S) (p : ℕ) → p < s.next → (queued s).cell p ≡ s.cell p
  unfolding queued
  queued-other s p l = ground arith

  pub queued-coroutine : (s : Store S) → (queued s).cell s.next ≡ blank false true
  unfolding queued
  queued-coroutine s = ground arith

  queued-promise : (s : Store S) → (queued s).cell (suc s.next) ≡ blank true false
  unfolding queued
  queued-promise s = ground arith

  pub queued-next : (s : Store S) → (queued s).next ≡ suc (suc s.next)
  unfolding queued
  queued-next s = refl

  pub queued-Parked : (s : Store S) → Parked (queued s) s.next
  queued-Parked s = record {
    running = record {
      known = omega (arith, queued-next s);
      open_ = rw (queued-coroutine s);
      unread = rw (queued-coroutine s);
      runs = rw (queued-coroutine s);
      direct = rw (queued-coroutine s);
    };
    undone = rw (queued-coroutine s);
  }

  pub queued-Link : (s : Store S) → Link (queued s) (suc s.next) []
  queued-Link s = record {
    quiet = record {
      known = omega (arith, queued-next s);
      open_ = rw (queued-promise s);
      unread = rw (queued-promise s);
      idle = rw (queued-promise s);
    };
    undone = rw (queued-promise s);
    queue = rw (queued-promise s);
  }

  -- The store once a `Lock` that need not wait has taken the mutex.
  unfoldable pub granted : ℕ → Store S → Store S
  granted r s = with_mutex (record (mutex_of s) { resolve = some r }) s

  pub Parked-granted : (s : Store S) (q r : ℕ) → Parked s q → Running (granted r s) q
  unfolding granted
  Parked-granted s q r h = record {
    known = h.running.known;
    open_ = h.running.open_;
    unread = h.running.unread;
    runs = h.running.runs;
    direct = h.running.direct;
  }

  -- The coroutine takes the handle and ends, on the promise `q`.
  pub grant-Runs :
      (s : Store S) (q r : ℕ) (fs : List (Frame S))
      → (mutex_of s).resolve ≡ none
      → Parked s q
      → Runs s
          (Frame.run (some q) (lock_granted r (fulfilled void)) ∷ fs)
          (ended q (fulfilled void) (granted r s))
          (Frame.loop q (s.cell q).awaiters ∷ fs)
  unfolding lock_granted granted
  grant-Runs s q r fs e h =
      next (step-locked s (some q) _ _ fs)
        (rw (e) (end-Runs (granted r s) q (fulfilled void) (Parked-granted s q r h) fs))
