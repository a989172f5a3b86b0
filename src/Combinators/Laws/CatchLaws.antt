-- ===== src/Combinators/Laws/CatchLaws.antt =====
-- `Catch` with a plain handler. include/promise/details/Promise.inl
use jspro_cpp.Prelude.{ℕ, ◌<◌, ◌≡◌, refl, subst, Bool, Option, some, List, ◌∷◌}
use jspro_cpp.Runtime.Value.{Exn, Outcome, fulfilled, rejected}
use jspro_cpp.Runtime.Code.{Code}
use jspro_cpp.Runtime.Cell.{outcome}
use jspro_cpp.Runtime.Store.{Store}
use jspro_cpp.Machine.Exec.{Frame}
use jspro_cpp.Machine.Runs.{Runs, stop}
use jspro_cpp.Machine.Settled.{claimed, reported, report}
use jspro_cpp.Machine.Returns.{branch, made}
use jspro_cpp.Machine.Delivery.{waiting, Pending, Untouched}
use jspro_cpp.Combinators.Fun.{Fun}
use jspro_cpp.Combinators.Catch.{Caught, handled_value, handle_exception, catch_body, catch_}
use jspro_cpp.Combinators.Spec.{mapped, CatchResult, passed, unmatched, handled}
use jspro_cpp.Combinators.Chain.{
  Reports, listener, settled_later, early, early-outcome, registered, late, late-outcome,
}

module _ {S : Type 0} (t_void t2_void : Bool) (c : Caught) (f : Exn → Code S) where
  handled-report :
      (r : ℕ) (k : Code S) (x : Outcome)
      → branch
          (λ v. Code.resolve r (handled_value t_void t2_void v) λ _. k)
          (λ e. Code.reject r e λ _. k)
          x
        ≡ report (mapped (handled_value t_void t2_void) x) r k
  handled-report r k (fulfilled v) = refl
  handled-report r k (rejected e) = refl

  abbrev pub body : ℕ → Outcome → Code S → Code S
  body = catch_body t_void t2_void c (Fun.plain f)

  body-Reports :
      (s s' : Store S) (r : ℕ) (o x : Outcome)
      → CatchResult t_void t2_void c s f o s' x
      → Reports s (body r o) r s' x
  unfolding catch_body handle_exception
  body-Reports s s' r o x passed w k fs = stop
  body-Reports s s' r o x (unmatched e) w k fs = rw (e, catch_body) stop
  body-Reports s s' r o x (handled {e = e} y m d) w k fs =
      subst (λ z. Runs s (Frame.run w (body r (rejected e) k) ∷ fs) s' (Frame.run w z ∷ fs))
        (handled-report r k y) (rw (m, catch_body) (d w _ _ fs))

  module _ (s : Store S) (p : ℕ) (o : Outcome) (w : Option ℕ) (k : ℕ → Code S)
      (fs : List (Frame S)) where
    -- On a promise that is done with `o`, with no lock kept, `Catch` with a plain function returns a
    -- new promise that is done with `x`, before it returns, where `CatchResult` relates `o` to `x`, if
    -- the user's function does not touch the new promise.
    pub catch_done :
        (s' : Store S) (x : Outcome)
        → outcome (s.cell p) ≡ some o
        → p < s.next
        → (s.cell p).readers ≡ 0
        → CatchResult t_void t2_void c (made s) f o s' x
        → Untouched (made s) s' s.next
        → Runs s
            (Frame.run w (catch_ t_void t2_void c p (Fun.plain f) k) ∷ fs)
            (reported x s.next s')
            (Frame.run w (k s.next) ∷ fs)
          × (outcome ((reported x s.next s').cell s.next) ≡ some x)
    unfolding catch_
    catch_done s' x e known unread t u = (
      early s p o w _ (λ r q. body r q (k r)) k fs s' x e known unread
          (body-Reports (made s) s' s.next o x t w (k s.next) fs) u,
      early-outcome s p o s' x u,
    )

    -- On a promise that is pending, with no awaiters, no lock kept and no coroutine, `Catch` with a
    -- plain function leaves one function on it and returns a new promise at once. When the promise
    -- is then settled with `o`, that function is run and the new promise is done with `x`, where
    -- `CatchResult` relates `o` to `x` in the store that the settling leaves, if the user's function
    -- does not touch the new promise.
    pub catch-Pending :
        (gs : List (Frame S)) (s' : Store S) (x : Outcome)
        → Pending s p
        → CatchResult t_void t2_void c (settled_later s p o (listener p (body s.next))) f o s' x
        → Untouched (settled_later s p o (listener p (body s.next))) s' s.next
        → Runs s
            (Frame.run w (catch_ t_void t2_void c p (Fun.plain f) k) ∷ fs)
            (waiting p (listener p (body s.next)) (made s))
            (Frame.run w (k s.next) ∷ fs)
          × Runs
              (claimed p (waiting p (listener p (body s.next)) (made s)))
              (Frame.settling p o ∷ gs)
              (reported x s.next s')
              gs
          × (outcome ((reported x s.next s').cell s.next) ≡ some x)
    unfolding catch_
    catch-Pending gs s' x h t u = (
      registered s p o w (λ r. listener p (body r)) (λ r q. body r q (k r)) k fs h,
      late s p o (body s.next) gs s' x h (body-Reports _ s' s.next o x t) u,
      late-outcome s p o (body s.next) s' x h.quiet.known u,
    )
