-- ===== src/Sync/CvGuard/Refused.antt =====
-- The wait of a guard fails: its continuation is not run. src/CVPromise.cpp
use jspro_cpp.Prelude.{ℕ, ◌<◌, ◌≡◌, ◌≢◌, ap, ◌∙◌, none, some, List, [], ◌∷◌, arith, lt→ltb}
use jspro_cpp.Runtime.Value.{Exn, rejected}
use jspro_cpp.Runtime.Code.{Awaiter}
use jspro_cpp.Runtime.Cell.{outcome}
use jspro_cpp.Runtime.Store.{Store}
use jspro_cpp.Machine.Exec.{Frame}
use jspro_cpp.Machine.Runs.{Runs, next, step-read}
use jspro_cpp.Machine.Returns.{made_done}
use jspro_cpp.Machine.Waking.{step-loop}
use jspro_cpp.Combinators.Then.{then_promise_body}
use jspro_cpp.Combinators.Laws.Spared.{Spared, made_done-Spared}
use jspro_cpp.Combinators.Laws.Tracked.{Waits, made_done-new, made_done-Waits}
use jspro_cpp.Combinators.Laws.AsyncLaws.{continuation, Continued-later, passed_by}
use jspro_cpp.Sync.Mutex.Queue.{Free}
use jspro_cpp.Sync.CvGuard.{Site, site_mutex}
use jspro_cpp.Sync.CvGuard.Coming.{away}
use jspro_cpp.Sync.CvGuard.Chained.{Free-other, again}

-- The wait on `p` with the promise `q` has failed: `q` is rejected, and the mutex stays free.
pub record Failed (p q : ℕ) (e : Exn) (s : Store Site) : Type 0 where
  pub woken : outcome (s.cell p) ≡ some (rejected e)
  pub done : outcome (s.cell q) ≡ some (rejected e)
  pub free : Free s
  pub unowned : s.shared.guard ≡ away
  pub known : p < s.next

pub refused :
    (s : Store Site) (p q id : ℕ) (x : Exn) (gs : List (Frame Site))
    → p < s.next
    → outcome (s.cell p) ≡ some (rejected x)
    → Waits s q
    → Free s
    → s.shared.guard ≡ away
    → (s' : Store Site) × Runs s
        (Frame.loop p (Awaiter.function id (continuation p again q) ∷ []) ∷ gs)
        s'
        gs
      × Failed p q x s'
refused s p q id x gs l e h f a =
    let o = rejected x in
    let made_it : Spared s.next s.next s.next s (made_done o s) =
      made_done-Spared s o (omega arith) in
    let (s', runs, done, spared) =
      Continued-later s p q again o o (made_done o s) s.next gs passed_by (made_done-new s o)
        (made_done-Waits s o q h) in
    let same : (y : ℕ) → y < s.next → q ≢ y → s'.cell y ≡ s.cell y = λ y m i.
      spared.same y (omega (arith, made_it.grown, m)) (omega (arith, m)) i
      ∙ made_it.same y m (omega (arith, m)) (omega (arith, m)) in
    let kept : s'.shared ≡ s.shared = spared.shared ∙ made_it.shared in
    (
      s',
      next (step-loop s p _ [] gs) (
          next
            (step-read s none p (then_promise_body again q) (Frame.loop p [] ∷ gs) o e
              (lt→ltb p s.next l))
            runs),
      record {
        woken = ap outcome (same p l (λ i. ground (arith, h.pending.undone, e, i))) ∙ e;
        done = done;
        free =
            Free-other s s' (omega (arith, spared.grown, made_it.grown)) (ap (λ z. z.mutex) kept)
              (same s.shared.mutex.promise f.known
                (λ i. ground (arith, h.pending.undone, f.open_, i)))
              f;
        unowned = ap (λ z. z.guard) kept ∙ a;
        known = omega (arith, spared.grown, made_it.grown, l);
      },
    )
