-- ===== src/Sync/CvGuard/Waiting.antt =====
-- `CVPromise::Wait` with a guard, from the call to the end of the wait. src/CVPromise.cpp
use jspro_cpp.Prelude.{ℕ, ◌≡◌, ◌≢◌, sym, ap, subst, ◌∙◌, true, Option, none, List, [], ◌∷◌, arith}
use jspro_cpp.Runtime.Value.{Exn}
use jspro_cpp.Runtime.Code.{Code}
use jspro_cpp.Runtime.Cell.{outcome}
use jspro_cpp.Runtime.Store.{Store}
use jspro_cpp.Machine.Exec.{Frame}
use jspro_cpp.Machine.Runs.{Runs, next, Runs-trans, step-locked}
use jspro_cpp.Machine.Delivery.{Pending, same-Pending}
use jspro_cpp.Combinators.Then.{then_move}
use jspro_cpp.Combinators.Laws.AsyncLaws.{continuation}
use jspro_cpp.Combinators.Laws.Moved.{moved-awaiters}
use jspro_cpp.Sync.Mutex.Queue.{Free, Held}
use jspro_cpp.Sync.CvPromise.{wait, notify, reject_with}
use jspro_cpp.Sync.CvPromise.Waking.{Armed}
use jspro_cpp.Sync.CvGuard.{Site, site_cv, site_mutex, wait_after, wait_guard}
use jspro_cpp.Sync.CvGuard.Coming.{owning, away}
use jspro_cpp.Sync.CvGuard.Leaving.{
  gone, release-Runs, gone-Free, gone-next, gone-other, gone-away, gone-cv,
}
use jspro_cpp.Sync.CvGuard.Chained.{
  again, chained, chain-Runs, chained-state, chained-Free, chained-Waits, chained-Armed,
}
use jspro_cpp.Sync.CvGuard.Awakened.{Over}
use jspro_cpp.Sync.CvGuard.Refused.{Failed}
use jspro_cpp.Sync.CvGuard.Signalled.{notify_ends, reject_ends}

-- Of a condition promise whose promise `p` is pending and unused, with no awaiters, and of a guard
-- that holds its mutex, with nobody else waiting for it, `Wait` with the guard releases the mutex
-- and returns a promise that is pending. When `Notify` is then called, it comes to its end, the
-- promise that `Wait` returned is fulfilled, and by then the guard holds the mutex again. When
-- `Reject` is called instead, with any exception, it comes to its end, the promise that `Wait`
-- returned is rejected with that exception, and the mutex is still free.
pub wait_guard_wakes :
    (s : Store Site) (p r : ℕ) (x : Exn) (w w' : Option ℕ) (k : ℕ → Code Site) (k' : Code Site)
    (fs gs : List (Frame Site))
    → Armed s p
    → (s.cell p).awaiters ≡ []
    → Held s r []
    → s.shared.guard ≡ owning
    → r ≢ p
    → (s' : Store Site) × (q : ℕ) × Runs s
        (Frame.run w (wait_guard k) ∷ fs)
        s'
        (Frame.run w (k q) ∷ fs)
      × (outcome (s'.cell q) ≡ none)
      × Free s'
      × (s'.shared.guard ≡ away)
      × ((s'' : Store Site) × Runs s' (Frame.run w' (notify k') ∷ gs) s'' (Frame.run w' k' ∷ gs)
          × Over p q s'')
      × ((s'' : Store Site) × Runs s'
            (Frame.run w' (reject_with x k') ∷ gs)
            s''
            (Frame.run w' k' ∷ gs)
          × Failed p q x s'')
unfolding wait_guard wait wait_after
wait_guard_wakes s p r x w w' k k' fs gs armed alone held owned n =
    let g : Store Site = gone s r held owned in
    let h : Pending g p =
      same-Pending s g p (omega (arith, gone-next s r held owned)) (gone-other s r held owned p n)
        (record { quiet = armed.quiet; undone = armed.undone; alone = alone }) in
    let t : Store Site = chained g p h in
    let c = chained-state g p h in
    let waits = chained-Waits g p h in
    let free = chained-Free g p h (gone-Free s r held owned) in
    let flag = ap (λ x. x.guard) c ∙ gone-away s r held owned in
    let unused = ap (λ d. d.rejected) (gone-other s r held owned p n) ∙ armed.unused in
    let armed' = chained-Armed g p h (gone-cv s r held owned ∙ armed.here) unused in
    let awaits = moved-awaiters g p (continuation p again g.next) h in
    let other : p ≢ g.next = omega (arith, h.quiet.known) in
    (
      t,
      g.next,
      next (step-locked s w _ _ fs) (
          next (step-locked s w _ _ fs) (
            subst
              (λ q.
                Runs s (Frame.run w (wait_after q s.shared.guard k) ∷ fs) t
                  (Frame.run w (k g.next) ∷ fs))
              (sym (ap (λ x. x.promise) armed.here))
              (subst
                (λ x. Runs s (Frame.run w (wait_after p x k) ∷ fs) t (Frame.run w (k g.next) ∷ fs))
                (sym owned)
                (Runs-trans (release-Runs s r held owned w (then_move true p again k) fs)
                  (chain-Runs g p h w k fs))))),
      waits.pending.undone,
      free,
      flag,
      notify_ends t p g.next _ w' k' gs armed' awaits waits other free flag,
      reject_ends t p g.next _ w' k' gs armed' awaits waits other free flag x,
    )
