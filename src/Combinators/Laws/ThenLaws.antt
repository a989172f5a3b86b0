-- ===== src/Combinators/Laws/ThenLaws.antt =====
-- `Then` with a plain function. include/promise/details/Promise.inl
use jspro_cpp.Prelude.{ℕ, ◌<◌, ◌≡◌, refl, subst, Bool, Option, some, List, ◌∷◌, arith}
use jspro_cpp.Runtime.Value.{Value, Outcome, fulfilled, rejected}
use jspro_cpp.Runtime.Code.{Code}
use jspro_cpp.Runtime.Cell.{outcome}
use jspro_cpp.Runtime.Store.{Store}
use jspro_cpp.Machine.Exec.{Frame}
use jspro_cpp.Machine.Runs.{Runs, stop, next, Runs-trans, step-on_done_or_create}
use jspro_cpp.Machine.Settled.{claimed, reported, report}
use jspro_cpp.Machine.Returns.{branch, made, made_done, make_done-Runs, made_done-outcome}
use jspro_cpp.Machine.Delivery.{waiting, Pending, Untouched, step-on_done_or_create_wait}
use jspro_cpp.Combinators.Fun.{Fun, then_body, then_now, then_plain, resolve_new, reject_new}
use jspro_cpp.Combinators.Then.{then_}
use jspro_cpp.Combinators.Spec.{ThenResult, skipped, called}
use jspro_cpp.Combinators.Chain.{Reports, listener, settled_later, late, late-outcome}

module _ {S : Type 0} where
  -- A result on either path is a report.
  pub branch-report :
      (r : ℕ) (k : Code S) (x : Outcome)
      → branch (λ v. Code.resolve r v λ _. k) (λ e. Code.reject r e λ _. k) x ≡ report x r k
  branch-report r k (fulfilled v) = refl
  branch-report r k (rejected e) = refl

  then_body-Reports :
      (s s' : Store S) (f : Value → Code S) (r : ℕ) (o x : Outcome)
      → ThenResult s f o s' x
      → Reports s (then_body f r o) r s' x
  unfolding then_body
  then_body-Reports s s' f r o x skipped w k fs = stop
  then_body-Reports s s' f r o x (called {v = v} c) w k fs =
      subst (λ z. Runs s (Frame.run w (then_body f r (fulfilled v) k) ∷ fs) s' (Frame.run w z ∷ fs))
        (branch-report r k x) (c w _ _ fs)

  then_now-Runs :
      (s s' : Store S) (f : Value → Code S) (o x : Outcome) (w : Option ℕ) (k : ℕ → Code S)
      (fs : List (Frame S))
      → ThenResult s f o s' x
      → Runs s
          (Frame.run w (then_now f o k) ∷ fs)
          s'
          (Frame.run w (Code.create λ r. report x r (k r)) ∷ fs)
  unfolding then_now resolve_new reject_new
  then_now-Runs s s' f o x w k fs skipped = stop
  then_now-Runs s s' f o (fulfilled v) w k fs (called c) = c w _ _ fs
  then_now-Runs s s' f o (rejected e) w k fs (called c) = c w _ _ fs

  module _ (s : Store S) (p : ℕ) (o : Outcome) (v : Bool) (f : Value → Code S) (w : Option ℕ)
      (k : ℕ → Code S) (fs : List (Frame S)) where
    -- On a promise that is done with `o`, with no lock kept, `Then` with a plain function returns a
    -- new promise that is done with `x`, before it returns, where `ThenResult` relates `o` to `x`.
    pub then_done :
        (s' : Store S) (x : Outcome)
        → outcome (s.cell p) ≡ some o
        → p < s.next
        → (s.cell p).readers ≡ 0
        → ThenResult s f o s' x
        → Runs s
            (Frame.run w (then_ v p (Fun.plain f) k) ∷ fs)
            (made_done x s')
            (Frame.run w (k s'.next) ∷ fs)
          × (outcome ((made_done x s').cell s'.next) ≡ some x)
    unfolding then_ then_plain
    then_done s' x e known unread t = (
      next (step-on_done_or_create s w p _ (λ o. then_now f o k) k fs o e (ground arith))
          (Runs-trans (then_now-Runs s s' f o x w k fs t) (make_done-Runs s' w x k fs)),
      made_done-outcome x s',
    )

    -- On a promise that is pending, with no awaiters, no lock kept and no coroutine, `Then` with a
    -- plain function leaves one function on it and returns a new promise at once. When the promise
    -- is then settled with `o`, that function is run and the new promise is done with `x`, where
    -- `ThenResult` relates `o` to `x` in the store that the settling leaves, if the user's function
    -- does not touch the new promise.
    pub then-Pending :
        (gs : List (Frame S)) (s' : Store S) (x : Outcome)
        → Pending s p
        → ThenResult (settled_later s p o (listener p (then_body f s.next))) f o s' x
        → Untouched (settled_later s p o (listener p (then_body f s.next))) s' s.next
        → Runs s
            (Frame.run w (then_ v p (Fun.plain f) k) ∷ fs)
            (waiting p (listener p (then_body f s.next)) (made s))
            (Frame.run w (k s.next) ∷ fs)
          × Runs
              (claimed p (waiting p (listener p (then_body f s.next)) (made s)))
              (Frame.settling p o ∷ gs)
              (reported x s.next s')
              gs
          × (outcome ((reported x s.next s').cell s.next) ≡ some x)
    unfolding then_ then_plain
    then-Pending gs s' x h t u = (
      next (step-on_done_or_create_wait s w p _ (λ o. then_now f o k) k fs h) stop,
      late s p o (then_body f s.next) gs s' x h (then_body-Reports _ s' f s.next o x t) u,
      late-outcome s p o (then_body f s.next) s' x h.quiet.known u,
    )
