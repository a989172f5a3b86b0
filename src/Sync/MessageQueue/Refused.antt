-- ===== src/Sync/MessageQueue/Refused.antt =====
-- A call through the proxy of a queue that does not take it.
-- include/promise/core/MessageQueueProxy.inl
use jspro_cpp.Prelude.{
  ℕ, ◌<◌, ◌≡◌, refl, sym, subst, Bool, true, false, Option, none, some, List, [], ◌∷◌, arith,
  ==_refl, lt→ltb,
}
use jspro_cpp.Runtime.Value.{void, Exn, queue_not_running, rejected}
use jspro_cpp.Runtime.Code.{Code}
use jspro_cpp.Runtime.Cell.{blank, outcome}
use jspro_cpp.Runtime.Store.{Store, alloc}
use jspro_cpp.Machine.Exec.{Frame, exec, exec_code}
use jspro_cpp.Machine.Threads.{step}
use jspro_cpp.Machine.Runs.{Runs, stop, next, Runs-trans, step-loop_end}
use jspro_cpp.Machine.Unsettled.{Unsettled, claim}
use jspro_cpp.Machine.Coroutine.{ended, resolver_end, ended-outcome, ended-running}
use jspro_cpp.Combinators.Fun.{make_promise}
use jspro_cpp.Combinators.Handles.{make_reject, apply_reject}
use jspro_cpp.Machine.Settled.{refused, step-reject}
use jspro_cpp.Sync.MessageQueue.{proxy_task, proxy_body, proxy_call}

module _ {S : Type 0} where
  -- The store with the coroutine of a new resolver promise, and with its `Reject` handle used.
  begun : Store S → Store S
  begun s = alloc (blank true true) s

  turned : Store S → Store S
  turned s = refused s.next (begun s)

  step-start_resolver :
      (s : Store S) (w : Option ℕ) (b k : ℕ → Code S) (fs : List (Frame S))
      → step s (Frame.run w (Code.start true b k) ∷ fs)
        ≡ some (begun s, Frame.run (some s.next) (b s.next) ∷ Frame.run w (k s.next) ∷ fs)
  unfolding step exec exec_code begun
  step-start_resolver s w b k fs = refl

  turned-Unsettled : (s : Store S) → Unsettled true (turned s) s.next
  unfolding turned begun
  turned-Unsettled s = record {
    known = omega arith;
    open_ = rw (==_refl s.next) refl;
    unread = rw (==_refl s.next) refl;
    runs = rw (==_refl s.next) refl;
    direct = rw (==_refl s.next) refl;
  }

  turned-fresh :
      (s : Store S)
      → (((turned s).cell s.next).awaiters ≡ []) × (outcome ((turned s).cell s.next) ≡ none)
  unfolding turned begun
  turned-fresh s = (rw (==_refl s.next) refl, rw (==_refl s.next) refl)

  begun-ready :
      (s : Store S) → (s.next < (begun s).next) × (((begun s).cell s.next).rejected ≡ false)
  unfolding begun
  begun-ready s = (omega arith, rw (==_refl s.next) refl)

  step-resolver_reject_first :
      (s : Store S) (w : Option ℕ) (p : ℕ) (e : Exn) (k : Bool → Code S) (fs : List (Frame S))
      → p < s.next
      → (s.cell p).resolved ≡ false
      → step s (Frame.run w (Code.resolver_reject p e k) ∷ fs)
        ≡ some (claim p s, Frame.settling p (rejected e) ∷ Frame.run w (k true) ∷ fs)
  unfolding step exec exec_code claim
  step-resolver_reject_first s w p e k fs v r = rw (lt→ltb p s.next v, r) refl

  -- If the queue refuses tasks, which it does without a change to any promise, a call through the
  -- proxy returns a promise that is rejected with "Queue is not running" and whose coroutine has
  -- ended, before it returns.
  pub proxy_refused :
      (ensure : Code S → (Bool → Code S) → Code S) (s : Store S) (w : Option ℕ) (callback : Code S)
      (k : ℕ → Code S) (fs : List (Frame S))
      → ((s : Store S) (w : Option ℕ) (t : Code S) (j : Bool → Code S) (gs : List (Frame S))
          → Runs s (Frame.run w (ensure t j) ∷ gs) s (Frame.run w (j false) ∷ gs))
      → (s' : Store S) × Runs s
          (Frame.run w (proxy_call ensure callback k) ∷ fs)
          s'
          (Frame.run w (k s.next) ∷ fs)
        × (outcome (s'.cell s.next) ≡ some (rejected queue_not_running))
        × ((s'.cell s.next).running ≡ false)
  unfolding proxy_call make_promise proxy_body make_reject apply_reject turned
  proxy_refused ensure s w callback k fs refuses = (
    ended s.next (rejected queue_not_running) (turned s),
    next (step-start_resolver s w (proxy_body ensure callback) k fs) (
        Runs-trans (refuses (begun s) (some s.next) (proxy_task callback s.next) _ _) (
          next
            (step-reject (begun s) (some s.next) s.next queue_not_running _ _ (begun-ready s).0
              (begun-ready s).1)
            (next
              (step-resolver_reject_first (turned s) (some s.next) s.next queue_not_running _ _
                unsettled.known unsettled.open_)
              (Runs-trans
                (resolver_end (turned s) s.next (rejected queue_not_running) unsettled void
                  (Frame.run w (k s.next) ∷ fs))
                (subst
                  (λ as'.
                    Runs (ended s.next (rejected queue_not_running) (turned s))
                      (Frame.loop s.next as' ∷ Frame.run w (k s.next) ∷ fs)
                      (ended s.next (rejected queue_not_running) (turned s))
                      (Frame.run w (k s.next) ∷ fs))
                  (sym (turned-fresh s).0)
                  (next (step-loop_end _ s.next (Frame.run w (k s.next) ∷ fs)) stop)))))),
    ended-outcome (turned s) s.next (rejected queue_not_running) unsettled (turned-fresh s).1,
    ended-running (turned s) s.next (rejected queue_not_running) unsettled,
  )
    where
      unsettled : Unsettled true (turned s) s.next
      unsettled = turned-Unsettled s
