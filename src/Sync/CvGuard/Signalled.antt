-- ===== src/Sync/CvGuard/Signalled.antt =====
-- `Notify` and `Reject` while a guard waits. src/CVPromise.cpp
use jspro_cpp.Prelude.{ℕ, ◌<◌, ◌≡◌, ◌≢◌, ap, subst, ◌∙◌, Option, List, [], ◌∷◌, arith}
use jspro_cpp.Runtime.Value.{void, Exn, Outcome, fulfilled, rejected}
use jspro_cpp.Runtime.Code.{Code, Awaiter}
use jspro_cpp.Runtime.Store.{Store}
use jspro_cpp.Machine.Exec.{Frame}
use jspro_cpp.Machine.Runs.{Runs, Runs-trans}
use jspro_cpp.Combinators.Laws.Tracked.{Waits, same-Waits}
use jspro_cpp.Combinators.Laws.AsyncLaws.{continuation}
use jspro_cpp.Sync.Mutex.Queue.{Free}
use jspro_cpp.Sync.CvPromise.{notify, reject_with, assert_done}
use jspro_cpp.Sync.CvPromise.Waking.{
  Armed, woken, woken-outcome, woken-other, woken-next, woken-state, notify-Runs, reject-Runs,
  assert_done-Runs,
}
use jspro_cpp.Sync.CvGuard.{Site, site_cv, site_mutex}
use jspro_cpp.Sync.CvGuard.Coming.{away}
use jspro_cpp.Sync.CvGuard.Chained.{Free-other, again}
use jspro_cpp.Sync.CvGuard.Awakened.{Over, awakened}
use jspro_cpp.Sync.CvGuard.Refused.{Failed, refused}

module _ (s : Store Site) (p q id : ℕ) (w : Option ℕ) (k : Code Site) (fs : List (Frame Site))
    (armed : Armed s p)
    (e : (s.cell p).awaiters ≡ Awaiter.function id (continuation p again q) ∷ []) (h : Waits s q)
    (n : p ≢ q) (f : Free s) (a : s.shared.guard ≡ away) where
  module _ (o : Outcome) where
    abbrev told : Store Site
    told = woken s p o

    told-Waits : Waits told q
    told-Waits =
        same-Waits s told q (omega (arith, woken-next s p o))
          (woken-other s p q o h.pending.quiet.known n) h

    told-Free : Free told
    told-Free =
        Free-other s told (omega (arith, woken-next s p o)) (ap (λ x. x.mutex) (woken-state s p o))
          (woken-other s p s.shared.mutex.promise o f.known
            (λ i. ground (arith, armed.undone, f.open_, i)))
          f

    told-away : told.shared.guard ≡ away
    told-away = ap (λ x. x.guard) (woken-state s p o) ∙ a

    told-known : p < told.next
    told-known = omega (arith, woken-next s p o, armed.quiet.known)

  -- `Notify` on a condition promise that only the wait `q` waits for.
  pub notify_ends :
      (s' : Store Site) × Runs s (Frame.run w (notify k) ∷ fs) s' (Frame.run w k ∷ fs) × Over p q s'
  notify_ends =
      let o = fulfilled void in
      let (s', runs, over) =
        awakened (told o) p q id (Frame.run w (assert_done p k) ∷ fs) (told-known o)
          (woken-outcome s p o armed) (told-Waits o) (told-Free o) (told-away o) in
      (
        s',
        Runs-trans
            (subst
              (λ as'.
                Runs s (Frame.run w (notify k) ∷ fs) (told o)
                  (Frame.loop p as' ∷ Frame.run w (assert_done p k) ∷ fs))
              e (notify-Runs s p w k fs armed))
            (Runs-trans runs (assert_done-Runs s' p o w k fs over.known over.woken)),
        over,
      )

  -- `Reject` on it: the guard does not ask for the mutex.
  pub reject_ends :
      (x : Exn)
      → (s' : Store Site) × Runs s (Frame.run w (reject_with x k) ∷ fs) s' (Frame.run w k ∷ fs)
        × Failed p q x s'
  reject_ends x =
      let o = rejected x in
      let (s', runs, failed) =
        refused (told o) p q id x (Frame.run w (assert_done p k) ∷ fs) (told-known o)
          (woken-outcome s p o armed) (told-Waits o) (told-Free o) (told-away o) in
      (
        s',
        Runs-trans
            (subst
              (λ as'.
                Runs s (Frame.run w (reject_with x k) ∷ fs) (told o)
                  (Frame.loop p as' ∷ Frame.run w (assert_done p k) ∷ fs))
              e (reject-Runs s p x w k fs armed))
            (Runs-trans runs (assert_done-Runs s' p o w k fs failed.known failed.woken)),
        failed,
      )
