-- ===== src/Sync/CvGuard/Chained.antt =====
-- The wait that `Then` leaves on the condition's promise. src/CVPromise.cpp
use jspro_cpp.Prelude.{
  ℕ, suc, ◌≤◌, ◌<◌, ◌≡◌, ◌≢◌, sym, ap, subst, ◌∙◌, true, false, Option, some, List, [], ◌∷◌, arith,
}
use jspro_cpp.Runtime.Value.{Value, void, fulfilled}
use jspro_cpp.Runtime.Code.{Code}
use jspro_cpp.Runtime.Cell.{outcome}
use jspro_cpp.Runtime.Store.{Store, free}
use jspro_cpp.Machine.Exec.{Frame}
use jspro_cpp.Machine.Runs.{Runs, stop, next}
use jspro_cpp.Machine.Returns.{made, made-cell}
use jspro_cpp.Machine.Delivery.{
  waiting, Pending, step-on_done_or_create_wait, made-other, waiting-other, waiting-next,
  waiting-readers, waiting-shared,
}
use jspro_cpp.Machine.Detached.{step-detach, detached-other, detached-next, detached-shared}
use jspro_cpp.Combinators.Fun.{Fun}
use jspro_cpp.Combinators.Then.{then_, then_move, then_promise}
use jspro_cpp.Combinators.Laws.Tracked.{Waits, blank-Waits}
use jspro_cpp.Combinators.Laws.AsyncLaws.{continuation}
use jspro_cpp.Combinators.Laws.Moved.{moved, moved-Quiet, moved-undone, moved-unused}
use jspro_cpp.Sync.Mutex.Line.{Link-Same}
use jspro_cpp.Sync.Mutex.Queue.{Free, Held}
use jspro_cpp.Sync.CvPromise.{fresh_cv}
use jspro_cpp.Sync.CvPromise.Waking.{Armed}
use jspro_cpp.Sync.CvGuard.{Site, site_cv, site_mutex, relock}

-- A mutex that nobody holds stays so where it and its promise stay.
pub Free-other :
    (s s' : Store Site)
    → s.next ≤ s'.next
    → s'.shared.mutex ≡ s.shared.mutex
    → s'.cell s.shared.mutex.promise ≡ s.cell s.shared.mutex.promise
    → Free s
    → Free s'
Free-other s s' n e c f = record {
  handle = ap (λ m. m.resolve) e ∙ f.handle;
  known = subst (λ m. m.promise < s'.next) (sym e) (omega (arith, n, f.known));
  open_ =
      subst (λ m. outcome (s'.cell m.promise) ≡ some (fulfilled void)) (sym e)
        (ap outcome c ∙ f.open_);
}

pub Held-same :
    (s s' : Store Site) (r : ℕ)
    → s.next ≤ s'.next
    → s'.shared ≡ s.shared
    → s'.cell r ≡ s.cell r
    → Held s r []
    → Held s' r []
Held-same s s' r n e c h = record {
  handle = ap (λ x. x.mutex.resolve) e ∙ h.handle;
  line = (
    h.line.0 ∙ sym (ap (λ x. x.mutex.promise) e),
    Link-Same s s' r [] (record { grown = n; same = c }) h.line.1,
  );
}

-- The guard's continuation of `Wait`.
abbrev pub again : Fun Site Value
again = Fun.coroutine λ _. relock

module _ (s : Store Site) (p : ℕ) (h : Pending s p) where
  -- The store once `Then` has returned on the handle that was moved in.
  abbrev pub chained : Store Site
  chained = moved s p (continuation p again s.next) h

  free_chained : free (waiting p (continuation p again s.next) (made s)) p ≡ true
  free_chained = ground (
    arith,
    waiting-next (made s) p (continuation p again s.next),
    waiting-readers (made s) p p (continuation p again s.next),
    made-other s p h.quiet.known,
    h.quiet.known,
    h.quiet.unread,
  )

  pub chain-Runs :
      (w : Option ℕ) (k : ℕ → Code Site) (fs : List (Frame Site))
      → Runs s (Frame.run w (then_move true p again k) ∷ fs) chained (Frame.run w (k s.next) ∷ fs)
  unfolding then_move then_ then_promise
  chain-Runs w k fs = next (step-on_done_or_create_wait s w p _ _ _ fs h) (
      next
        (step-detach (waiting p (continuation p again s.next) (made s)) w p (k s.next) fs
          free_chained)
        stop)

  chained-other : (q : ℕ) → q < suc s.next → p ≢ q → chained.cell q ≡ (made s).cell q
  chained-other q l n =
      detached-other (waiting p (continuation p again s.next) (made s)) p q n
      ∙ waiting-other (made s) p q (continuation p again s.next) n

  pub chained-state : chained.shared ≡ s.shared
  chained-state =
      detached-shared (waiting p (continuation p again s.next) (made s)) p
      ∙ waiting-shared (made s) p (continuation p again s.next)

  chained-next : chained.next ≡ suc s.next
  chained-next =
      detached-next (waiting p (continuation p again s.next) (made s)) p
      ∙ waiting-next (made s) p (continuation p again s.next)

  pub chained-Free : Free s → Free chained
  chained-Free f =
      Free-other s chained (omega (arith, chained-next)) (ap (λ x. x.mutex) chained-state)
        (chained-other s.shared.mutex.promise (omega (arith, f.known))
            (λ e. ground (arith, h.undone, f.open_, e))
          ∙ made-other s s.shared.mutex.promise f.known)
        f

  pub chained-Waits : Waits chained s.next
  chained-Waits =
      blank-Waits chained s.next (omega (arith, chained-next))
        (chained-other s.next (omega arith) (omega (arith, h.quiet.known)) ∙ made-cell s)

  pub chained-Armed : s.shared.cv ≡ fresh_cv p → (s.cell p).rejected ≡ false → Armed chained p
  chained-Armed e u = record {
    here = ap (λ x. x.cv) chained-state ∙ e;
    quiet = moved-Quiet s p (continuation p again s.next) h;
    undone = moved-undone s p (continuation p again s.next) h;
    unused = moved-unused s p (continuation p again s.next) h u;
  }
