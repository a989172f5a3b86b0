-- ===== src/Combinators/Laws/FinallyLaws.antt =====
-- `Finally` with a plain function. include/promise/details/Promise.inl
use jspro_cpp.Prelude.{ℕ, ◌<◌, ◌≡◌, refl, Bool, false, Option, some, List, ◌∷◌}
use jspro_cpp.Runtime.Value.{Value, Outcome, fulfilled, rejected}
use jspro_cpp.Runtime.Code.{Code}
use jspro_cpp.Runtime.Cell.{outcome}
use jspro_cpp.Runtime.Store.{Store}
use jspro_cpp.Machine.Exec.{Frame}
use jspro_cpp.Machine.Runs.{Runs}
use jspro_cpp.Machine.Settled.{claimed, reported}
use jspro_cpp.Machine.Returns.{made}
use jspro_cpp.Machine.Delivery.{waiting, Pending, Untouched}
use jspro_cpp.Combinators.Fun.{Fun}
use jspro_cpp.Combinators.Finally.{
  apply_value, apply_exception, finally_body, finally_now, finally_,
}
use jspro_cpp.Combinators.Spec.{FinallyResult, kept, replaced}
use jspro_cpp.Combinators.Chain.{
  Reports, listener, settled_later, early, early-outcome, registered, late, late-outcome,
}

module _ {S : Type 0} (f : Value → Code S) where
  abbrev pub body : ℕ → Outcome → Code S → Code S
  body = finally_body (Fun.plain f)

  body-Reports :
      (s s' : Store S) (r : ℕ) (o x : Outcome)
      → FinallyResult s f o s' x
      → Reports s (body r o) r s' x
  unfolding finally_body apply_value apply_exception
  body-Reports s s' r (fulfilled v) x (kept d) w k fs = d w _ _ fs
  body-Reports s s' r (fulfilled v) x (replaced d) w k fs = d w _ _ fs
  body-Reports s s' r (rejected e) x (kept d) w k fs = d w _ _ fs
  body-Reports s s' r (rejected e) x (replaced d) w k fs = d w _ _ fs

  now-body :
      (p r : ℕ) (o : Outcome) (k : Code S) → finally_now false p (Fun.plain f) r o k ≡ body r o k
  unfolding finally_now finally_body
  now-body p r (fulfilled v) k = refl
  now-body p r (rejected e) k = refl

  module _ (s : Store S) (p : ℕ) (o : Outcome) (w : Option ℕ) (k : ℕ → Code S)
      (fs : List (Frame S)) where
    -- On a promise, not of void, that is done with `o`, with no lock kept, `Finally` with a plain function returns a
    -- new promise that is done with `x`, before it returns, where `FinallyResult` relates `o` to `x`, if
    -- the user's function does not touch the new promise.
    pub finally_done :
        (s' : Store S) (x : Outcome)
        → outcome (s.cell p) ≡ some o
        → p < s.next
        → (s.cell p).readers ≡ 0
        → FinallyResult (made s) f o s' x
        → Untouched (made s) s' s.next
        → Runs s
            (Frame.run w (finally_ false p (Fun.plain f) k) ∷ fs)
            (reported x s.next s')
            (Frame.run w (k s.next) ∷ fs)
          × (outcome ((reported x s.next s').cell s.next) ≡ some x)
    unfolding finally_
    finally_done s' x e known unread t u = (
      early s p o w _ (λ r q. finally_now false p (Fun.plain f) r q (k r)) k fs s' x e known unread
          (rw (now-body p s.next o (k s.next))
            (body-Reports (made s) s' s.next o x t w (k s.next) fs))
          u,
      early-outcome s p o s' x u,
    )

    -- On a promise, of void or not, that is pending, with no awaiters, no lock kept and no coroutine, `Finally` with a
    -- plain function leaves one function on it and returns a new promise at once. When the promise
    -- is then settled with `o`, that function is run and the new promise is done with `x`, where
    -- `FinallyResult` relates `o` to `x` in the store that the settling leaves, if the user's function
    -- does not touch the new promise.
    pub finally-Pending :
        (v : Bool) (gs : List (Frame S)) (s' : Store S) (x : Outcome)
        → Pending s p
        → FinallyResult (settled_later s p o (listener p (body s.next))) f o s' x
        → Untouched (settled_later s p o (listener p (body s.next))) s' s.next
        → Runs s
            (Frame.run w (finally_ v p (Fun.plain f) k) ∷ fs)
            (waiting p (listener p (body s.next)) (made s))
            (Frame.run w (k s.next) ∷ fs)
          × Runs
              (claimed p (waiting p (listener p (body s.next)) (made s)))
              (Frame.settling p o ∷ gs)
              (reported x s.next s')
              gs
          × (outcome ((reported x s.next s').cell s.next) ≡ some x)
    unfolding finally_
    finally-Pending v gs s' x h t u = (
      registered s p o w (λ r. listener p (body r)) (λ r q. finally_now v p (Fun.plain f) r q (k r))
          k fs h,
      late s p o (body s.next) gs s' x h (body-Reports _ s' s.next o x t) u,
      late-outcome s p o (body s.next) s' x h.quiet.known u,
    )
