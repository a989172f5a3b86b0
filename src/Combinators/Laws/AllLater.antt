-- ===== src/Combinators/Laws/AllLater.antt =====
-- `All` over a container in which one promise is pending. include/promise/details/helpers.inl
use jspro_cpp.Prelude.{
  ℕ, ◌<◌, ◌≡◌, ◌≢◌, refl, Bool, true, false, Option, none, some, List, [], ◌∷◌, ◌++◌, map, arith,
  ==_refl, lt→ltb,
}
use jspro_cpp.Runtime.Value.{Value, Outcome, fulfilled, rejected}
use jspro_cpp.Runtime.Code.{Code, Awaiter}
use jspro_cpp.Runtime.Cell.{outcome, await_coroutine}
use jspro_cpp.Runtime.Store.{Store, write, free}
use jspro_cpp.Machine.Exec.{Frame}
use jspro_cpp.Machine.Runs.{Runs, stop, next, Runs-trans, step-co_await, step-park}
use jspro_cpp.Machine.Settled.{Quiet}
use jspro_cpp.Machine.Returns.{pure}
use jspro_cpp.Machine.Delivery.{Pending}
use jspro_cpp.Machine.Unsettled.{started, step-start}
use jspro_cpp.Combinators.All.{all_void_loop, all_loop, all_body, all}
use jspro_cpp.Combinators.Laws.AllLaws.{
  AllDone, gather, gather_void, gathered, loop-Runs, void_loop-Runs,
}

-- The results once the values have been added one after the other.
abbrev pub collected : List Value → List Value → List Value
collected vs [] = vs
collected vs (v ∷ us) = collected (vs ++ (v ∷ [])) us

abbrev pub gathered_on : Bool → List Value → List Outcome → Outcome
gathered_on true vs os = gather_void os
gathered_on false vs os = gather os vs

pub gathered-split :
    (b : Bool) (us vs : List Value) (os : List Outcome)
    → gathered_on b vs (map fulfilled us ++ os) ≡ gathered_on b (collected vs us) os
unfolding gather gather_void
gathered-split b [] vs os = refl
gathered-split true (v ∷ us) vs os = gathered-split true us (vs ++ (v ∷ [])) os
gathered-split false (v ∷ us) vs os = gathered-split false us (vs ++ (v ∷ [])) os

pub gathered-on : (b : Bool) (os : List Outcome) → gathered b os ≡ gathered_on b [] os
unfolding gathered
gathered-on true os = refl
gathered-on false os = refl

module _ {S : Type 0} where
  abbrev pub loop_on : Bool → List Value → List ℕ → Code S
  loop_on true vs ps = all_void_loop ps
  loop_on false vs ps = all_loop ps vs

  -- What the loop does with the outcome of a promise.
  abbrev pub after : Bool → List Value → List ℕ → Outcome → Code S
  after b vs ps =
      λ o. elim o [ fulfilled v ↦ loop_on b (vs ++ (v ∷ [])) ps | rejected e ↦ Code.throw e ]

  loop_on-head :
      (b : Bool) (vs : List Value) (p : ℕ) (ps : List ℕ)
      → loop_on b vs (p ∷ ps) ≡ Code.co_await p (after b vs ps)
  unfolding all_loop all_void_loop
  loop_on-head true vs p ps = refl
  loop_on-head false vs p ps = refl

  body-head : (b : Bool) (ps : List ℕ) → all_body {S = S} b ps ≡ loop_on b [] ps
  unfolding all_body
  body-head true ps = refl
  body-head false ps = refl

  loop_on-Runs :
      (b : Bool) (s : Store S) (w : Option ℕ) (vs : List Value) (ps : List ℕ) (os : List Outcome)
      (fs : List (Frame S))
      → AllDone s ps os
      → Runs s
          (Frame.run w (loop_on b vs ps) ∷ fs)
          s
          (Frame.run w (pure (gathered_on b vs os)) ∷ fs)
  loop_on-Runs true s w vs ps os fs h = void_loop-Runs s w ps os fs h
  loop_on-Runs false s w vs ps os fs h = loop-Runs s w ps os vs fs h

  -- The loop goes on from the outcome of a promise over promises that are done.
  pub after-Runs :
      (b : Bool) (s : Store S) (w : Option ℕ) (vs : List Value) (o : Outcome) (ps : List ℕ)
      (os : List Outcome) (fs : List (Frame S))
      → AllDone s ps os
      → Runs s
          (Frame.run w (after b vs ps o) ∷ fs)
          s
          (Frame.run w (pure (gathered_on b vs (o ∷ os))) ∷ fs)
  unfolding gather gather_void
  after-Runs true s w vs (fulfilled v) ps os fs h =
      loop_on-Runs true s w (vs ++ (v ∷ [])) ps os fs h
  after-Runs false s w vs (fulfilled v) ps os fs h =
      loop_on-Runs false s w (vs ++ (v ∷ [])) ps os fs h
  after-Runs true s w vs (rejected e) ps os fs h = stop
  after-Runs false s w vs (rejected e) ps os fs h = stop

  -- The loop over promises that are done comes to the one after them.
  prefix-Runs :
      (b : Bool) (s : Store S) (w : Option ℕ) (vs us : List Value) (qs : List ℕ) (p : ℕ)
      (ps : List ℕ) (fs : List (Frame S))
      → AllDone s qs (map fulfilled us)
      → Runs s
          (Frame.run w (loop_on b vs (qs ++ (p ∷ ps))) ∷ fs)
          s
          (Frame.run w (Code.co_await p (after b (collected vs us) ps)) ∷ fs)
  prefix-Runs b s w vs [] [] p ps fs h = rw (loop_on-head b vs p ps) stop
  prefix-Runs b s w vs (v ∷ us) [] p ps fs h = absurd h
  prefix-Runs b s w vs [] (q ∷ qs) p ps fs h = absurd h
  prefix-Runs b s w vs (v ∷ us) (q ∷ qs) p ps fs h = rw (loop_on-head b vs q (qs ++ (p ∷ ps))) (
      next (step-co_await s w q _ fs (fulfilled v) h.1 (lt→ltb q s.next h.0))
        (prefix-Runs b s w (vs ++ (v ∷ [])) us qs p ps fs h.2))

  module _ (b : Bool) (us : List Value) (s : Store S) (p : ℕ) (ps : List ℕ) where
    -- The store in which the coroutine of `All` waits for `p`.
    pub suspended : Store S
    suspended =
        write p (await_coroutine (some s.next) (after b (collected [] us) ps) ((started s).cell p))
          (started s)

    pub started-old : (q : ℕ) → q < s.next → (started s).cell q ≡ s.cell q
    started-old q l = ground arith

    pub suspended-other : (q : ℕ) → p ≢ q → suspended.cell q ≡ (started s).cell q
    unfolding suspended
    suspended-other q n = ground arith

    pub suspended-next : suspended.next ≡ (started s).next
    unfolding suspended
    suspended-next = refl

    module _ (h : Pending s p) where
      suspended-cell :
          suspended.cell p ≡ await_coroutine (some s.next) (after b (collected [] us) ps) (s.cell p)
      unfolding suspended
      suspended-cell = rw (==_refl p, started-old p h.quiet.known) refl

      pub suspended-Quiet : Quiet suspended p
      unfolding await_coroutine
      suspended-Quiet = record {
        known = omega (arith, suspended-next, h.quiet.known);
        open_ = rw suspended-cell h.quiet.open_;
        unread = rw suspended-cell h.quiet.unread;
        idle = rw suspended-cell h.quiet.idle;
      }

      pub suspended-awaiters :
          (suspended.cell p).awaiters
          ≡ Awaiter.coroutine (some s.next) (after b (collected [] us) ps) ∷ []
      unfolding await_coroutine
      suspended-awaiters = rw suspended-cell (rw h.alone refl)

      pub suspended-undone : outcome (suspended.cell p) ≡ none
      unfolding await_coroutine
      suspended-undone = rw suspended-cell h.undone

      started-free : free (started s) p ≡ true
      started-free = ground (arith, started-old p h.quiet.known, h.quiet.known, h.quiet.unread)

      -- The call of `All` returns while its coroutine waits for `p`.
      pub suspend-Runs :
          (qs : List ℕ) (w : Option ℕ) (k : ℕ → Code S) (fs : List (Frame S))
          → AllDone (started s) qs (map fulfilled us)
          → Runs s
              (Frame.run w (all b (qs ++ (p ∷ ps)) k) ∷ fs)
              suspended
              (Frame.run w (k s.next) ∷ fs)
      unfolding all suspended
      suspend-Runs qs w k fs d = next (step-start s w (λ _. all_body b (qs ++ (p ∷ ps))) k fs) (
          rw (body-head b (qs ++ (p ∷ ps))) (
            Runs-trans
              (prefix-Runs b (started s) (some s.next) [] us qs p ps (Frame.run w (k s.next) ∷ fs)
                d)
              (next
                (step-park (started s) (some s.next) p (after b (collected [] us) ps)
                  (Frame.run w (k s.next) ∷ fs) (rw (started-old p h.quiet.known) h.undone)
                  started-free)
                stop)))
