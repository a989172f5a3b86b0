-- ===== src/Sync/CvGuard/Awakened.antt =====
-- The end of the wait: the guard's continuation is run. src/CVPromise.cpp
use jspro_cpp.Prelude.{ℕ, suc, ◌<◌, ◌≡◌, ap, ◌∙◌, true, none, some, List, [], ◌∷◌, arith, lt→ltb}
use jspro_cpp.Runtime.Value.{void, fulfilled}
use jspro_cpp.Runtime.Code.{Awaiter}
use jspro_cpp.Runtime.Cell.{outcome}
use jspro_cpp.Runtime.Store.{Store}
use jspro_cpp.Machine.Exec.{Frame}
use jspro_cpp.Machine.Runs.{Runs, next, step-read}
use jspro_cpp.Machine.Waking.{step-loop}
use jspro_cpp.Combinators.Then.{then_promise_body}
use jspro_cpp.Combinators.Laws.Tracked.{Waits}
use jspro_cpp.Combinators.Laws.AsyncLaws.{started_by, continuation, Continued-later}
use jspro_cpp.Sync.Mutex.Queue.{Free, Held}
use jspro_cpp.Sync.CvGuard.{Site, site_mutex}
use jspro_cpp.Sync.CvGuard.Coming.{
  away, back, back-Makes, back-Usable, back-Waits, back-grown, back-owned, back-Held, back-old,
}
use jspro_cpp.Sync.CvGuard.Chained.{Held-same, again}

-- The wait on `p` with the promise `q` is over: `q` is fulfilled, and the guard has the mutex.
pub record Over (p q : ℕ) (s : Store Site) : Type 0 where
  pub woken : outcome (s.cell p) ≡ some (fulfilled void)
  pub done : outcome (s.cell q) ≡ some (fulfilled void)
  pub holder : ℕ
  pub held : Held s holder []
  pub owned : s.shared.guard.own_lock ≡ true
  pub known : p < s.next

pub awakened :
    (s : Store Site) (p q id : ℕ) (gs : List (Frame Site))
    → p < s.next
    → outcome (s.cell p) ≡ some (fulfilled void)
    → Waits s q
    → Free s
    → s.shared.guard ≡ away
    → (s' : Store Site) × Runs s
        (Frame.loop p (Awaiter.function id (continuation p again q) ∷ []) ∷ gs)
        s'
        gs
      × Over p q s'
awakened s p q id gs l e h f a =
    let t = back s f a in
    let (s', runs, done, spared) =
      Continued-later s p q again (fulfilled void) (fulfilled void) t s.next gs
        (started_by (back-Makes s f a void)) (back-Usable s f a) (back-Waits s f a q h) in
    let g = back-grown s f a in
    (
      s',
      next (step-loop s p _ [] gs) (
          next
            (step-read s none p (then_promise_body again q) (Frame.loop p [] ∷ gs) (fulfilled void)
              e (lt→ltb p s.next l))
            runs),
      record {
        woken =
            ap outcome (
              spared.same p (omega (arith, g, l)) (omega (arith, l))
                (λ i. ground (arith, h.pending.undone, e, i))
              ∙ back-old s f a p l)
            ∙ e;
        done = done;
        holder = suc (suc s.next);
        held =
            Held-same t s' (suc (suc s.next)) spared.grown spared.shared
              (spared.same (suc (suc s.next)) g (omega arith)
                (omega (arith, h.pending.quiet.known)))
              (back-Held s f a);
        owned = ap (λ x. x.guard.own_lock) spared.shared ∙ back-owned s f a;
        known = omega (arith, spared.grown, g, l);
      },
    )
