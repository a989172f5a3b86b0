-- ===== src/Combinators/Laws/AllLaws.antt =====
-- `All` over promises that are done. include/promise/details/helpers.inl
use jspro_cpp.Prelude.{
  ℕ, ◌<◌, ◌≡◌, ◌∙◌, Bool, true, false, Option, some, List, [], ◌∷◌, ◌++◌, arith, ==_refl, lt→ltb,
}
use jspro_cpp.Runtime.Value.{Value, void, Outcome, fulfilled, rejected}
use jspro_cpp.Runtime.Code.{Code}
use jspro_cpp.Runtime.Cell.{outcome}
use jspro_cpp.Runtime.Store.{Store}
use jspro_cpp.Machine.Exec.{Frame}
use jspro_cpp.Machine.Runs.{Runs, stop, next, Runs-trans, step-co_await, step-loop_end}
use jspro_cpp.Machine.Returns.{pure}
use jspro_cpp.Machine.Unsettled.{started, started-Running, step-start}
use jspro_cpp.Machine.Coroutine.{ended, end-Runs, ended-outcome, ended-other}
use jspro_cpp.Combinators.All.{vector, all_void_loop, all_loop, all_body, all}

-- The first exception in the order of the list, or else all values in that order.
unfoldable pub gather : List Outcome → List Value → Outcome
gather [] vs = fulfilled (vector vs)
gather (fulfilled v ∷ os) vs = gather os (vs ++ (v ∷ []))
gather (rejected e ∷ os) vs = rejected e

unfoldable pub gather_void : List Outcome → Outcome
gather_void [] = fulfilled void
gather_void (fulfilled v ∷ os) = gather_void os
gather_void (rejected e ∷ os) = rejected e

unfoldable pub gathered : Bool → List Outcome → Outcome
gathered true os = gather_void os
gathered false os = gather os []

module _ {S : Type 0} where
  -- The promises of the list are done, with these outcomes.
  abbrev pub AllDone : Store S → List ℕ → List Outcome → Type 0
  AllDone s [] [] = Unit {0}
  AllDone s (p ∷ ps) (o ∷ os) = (p < s.next) × (outcome (s.cell p) ≡ some o) × AllDone s ps os
  AllDone s _ _ = ⊥

  pub loop-Runs :
      (s : Store S) (w : Option ℕ) (ps : List ℕ) (os : List Outcome) (vs : List Value)
      (fs : List (Frame S))
      → AllDone s ps os
      → Runs s (Frame.run w (all_loop ps vs) ∷ fs) s (Frame.run w (pure (gather os vs)) ∷ fs)
  unfolding all_loop gather
  loop-Runs s w [] [] vs fs h = stop
  loop-Runs s w [] (o ∷ os) vs fs h = absurd h
  loop-Runs s w (p ∷ ps) [] vs fs h = absurd h
  loop-Runs s w (p ∷ ps) (fulfilled v ∷ os) vs fs h =
      next (step-co_await s w p _ fs (fulfilled v) h.1 (lt→ltb p s.next h.0))
        (loop-Runs s w ps os (vs ++ (v ∷ [])) fs h.2)
  loop-Runs s w (p ∷ ps) (rejected e ∷ os) vs fs h =
      next (step-co_await s w p _ fs (rejected e) h.1 (lt→ltb p s.next h.0)) stop

  pub void_loop-Runs :
      (s : Store S) (w : Option ℕ) (ps : List ℕ) (os : List Outcome) (fs : List (Frame S))
      → AllDone s ps os
      → Runs s (Frame.run w (all_void_loop ps) ∷ fs) s (Frame.run w (pure (gather_void os)) ∷ fs)
  unfolding all_void_loop gather_void
  void_loop-Runs s w [] [] fs h = stop
  void_loop-Runs s w [] (o ∷ os) fs h = absurd h
  void_loop-Runs s w (p ∷ ps) [] fs h = absurd h
  void_loop-Runs s w (p ∷ ps) (fulfilled v ∷ os) fs h =
      next (step-co_await s w p _ fs (fulfilled v) h.1 (lt→ltb p s.next h.0))
        (void_loop-Runs s w ps os fs h.2)
  void_loop-Runs s w (p ∷ ps) (rejected e ∷ os) fs h =
      next (step-co_await s w p _ fs (rejected e) h.1 (lt→ltb p s.next h.0)) stop

  body-Runs :
      (s : Store S) (v : Bool) (w : Option ℕ) (ps : List ℕ) (os : List Outcome)
      (fs : List (Frame S))
      → AllDone s ps os
      → Runs s (Frame.run w (all_body v ps) ∷ fs) s (Frame.run w (pure (gathered v os)) ∷ fs)
  unfolding all_body gathered
  body-Runs s true w ps os fs h = void_loop-Runs s w ps os fs h
  body-Runs s false w ps os fs h = loop-Runs s w ps os [] fs h

  pub started-AllDone :
      (s : Store S) (ps : List ℕ) (os : List Outcome) → AllDone s ps os → AllDone (started s) ps os
  started-AllDone s [] [] h = tt
  started-AllDone s [] (o ∷ os) h = absurd h
  started-AllDone s (p ∷ ps) [] h = absurd h
  started-AllDone s (p ∷ ps) (o ∷ os) h =
      (omega (arith, h.0), ground (arith, h.0, h.1), started-AllDone s ps os h.2)

  -- `All` over a container of promises that are done returns a new promise that is done: with the
  -- first exception in the order of the container, or else with all values in that order, or with
  -- void for promises of void. It leaves every promise of the container, and every other, as it was.
  pub all_done :
      (s : Store S) (v : Bool) (ps : List ℕ) (os : List Outcome) (w : Option ℕ) (k : ℕ → Code S)
      (fs : List (Frame S))
      → AllDone s ps os
      → (s' : Store S) × Runs s (Frame.run w (all v ps k) ∷ fs) s' (Frame.run w (k s.next) ∷ fs)
        × (outcome (s'.cell s.next) ≡ some (gathered v os))
        × ((p : ℕ) → p < s.next → s'.cell p ≡ s.cell p)
  unfolding all
  all_done s v ps os w k fs h = (
    ended s.next (gathered v os) (started s),
    next (step-start s w (λ _. all_body v ps) k fs) (
        Runs-trans
          (body-Runs (started s) v (some s.next) ps os (Frame.run w (k s.next) ∷ fs)
            (started-AllDone s ps os h))
          (Runs-trans
            (end-Runs (started s) s.next (gathered v os) (started-Running s)
              (Frame.run w (k s.next) ∷ fs))
            (rw (==_refl s.next) (
              next
                (step-loop_end (ended s.next (gathered v os) (started s)) s.next
                  (Frame.run w (k s.next) ∷ fs))
                stop)))),
    ended-outcome (started s) s.next (gathered v os) (started-Running s) (rw (==_refl s.next)),
    λ p l.
        ended-other (started s) s.next (gathered v os) (started-Running s) p (omega arith)
        ∙ ground arith,
  )
