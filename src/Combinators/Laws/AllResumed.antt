-- ===== src/Combinators/Laws/AllResumed.antt =====
-- The promise of `All` when the pending one of its promises is settled.
-- include/promise/details/helpers.inl
use jspro_cpp.Prelude.{
  ℕ, ◌≤◌, ◌<◌, ◌≡◌, ◌≢◌, refl, ap, sym, subst, ◌∙◌, Bool, true, false, Option, none, some, List, [],
  ◌∷◌, ◌++◌, map, arith, ==_refl,
}
use jspro_cpp.Runtime.Value.{Value, Outcome, fulfilled}
use jspro_cpp.Runtime.Code.{Code}
use jspro_cpp.Runtime.Cell.{blank, outcome}
use jspro_cpp.Runtime.Store.{Store}
use jspro_cpp.Machine.Exec.{Frame}
use jspro_cpp.Machine.Runs.{Runs, stop, next, Runs-trans, step-loop_end}
use jspro_cpp.Machine.Settled.{
  claimed, settled, settling-Runs, settled-outcome, settled-other, settled-next,
}
use jspro_cpp.Machine.Delivery.{Pending}
use jspro_cpp.Machine.Waking.{step-loop}
use jspro_cpp.Machine.Progress.{resume-step}
use jspro_cpp.Machine.Unsettled.{started, Running}
use jspro_cpp.Machine.Coroutine.{ended, end-Runs, ended-outcome}
use jspro_cpp.Combinators.All.{all}
use jspro_cpp.Combinators.Laws.AllLaws.{AllDone, gathered, started-AllDone}
use jspro_cpp.Combinators.Laws.AllLater.{
  collected, gathered_on, gathered-split, gathered-on, after, after-Runs, suspended, started-old,
  suspended-other, suspended-next, suspended-Quiet, suspended-awaiters, suspended-undone,
  suspend-Runs,
}

module _ {S : Type 0} where
  -- Promises that are done stay done where only a pending one changes.
  AllDone-other :
      (s s' : Store S) (p : ℕ) (ps : List ℕ) (os : List Outcome)
      → outcome (s.cell p) ≡ none
      → s.next ≤ s'.next
      → ((q : ℕ) → q < s.next → p ≢ q → s'.cell q ≡ s.cell q)
      → AllDone s ps os
      → AllDone s' ps os
  AllDone-other s s' p [] [] n g e h = tt
  AllDone-other s s' p [] (o ∷ os) n g e h = h
  AllDone-other s s' p (q ∷ qs) [] n g e h = h
  AllDone-other s s' p (q ∷ qs) (o ∷ os) n g e h = (
    omega (arith, g, h.0),
    ap outcome (e q h.0 (λ i. ground (arith, n, h.1, i))) ∙ h.1,
    AllDone-other s s' p qs os n g e h.2,
  )

  module _ (b : Bool) (us : List Value) (s : Store S) (p : ℕ) (ps : List ℕ) (o : Outcome)
      (h : Pending s p) where
    abbrev resumed : Store S
    resumed = settled p o (suspended b us s p ps)

    resumed-next : resumed.next ≡ (started s).next
    resumed-next = settled-next p o (suspended b us s p ps) ∙ suspended-next b us s p ps

    resumed-other : (q : ℕ) → p ≢ q → resumed.cell q ≡ (started s).cell q
    resumed-other q n =
        settled-other p q o (suspended b us s p ps) n ∙ suspended-other b us s p ps q n

    fresh : (started s).cell s.next ≡ blank false true
    fresh = rw (==_refl s.next) refl

    resumed-fresh : resumed.cell s.next ≡ blank false true
    resumed-fresh = resumed-other s.next (omega (arith, h.quiet.known)) ∙ fresh

    resumed-Running : Running resumed s.next
    resumed-Running = record {
      known = omega (arith, resumed-next);
      open_ = rw resumed-fresh refl;
      unread = rw resumed-fresh refl;
      runs = rw resumed-fresh refl;
      direct = rw resumed-fresh refl;
    }

    resumed-AllDone : (os : List Outcome) → AllDone s ps os → AllDone resumed ps os
    resumed-AllDone os d =
        AllDone-other s resumed p ps os h.undone (omega (arith, resumed-next))
          (λ q l n. resumed-other q n ∙ started-old b us s p ps q l) d

    resume-Runs :
        (os : List Outcome) (gs : List (Frame S))
        → AllDone s ps os
        → Runs
            (claimed p (suspended b us s p ps))
            (Frame.settling p o ∷ gs)
            (ended s.next (gathered_on b (collected [] us) (o ∷ os)) resumed)
            gs
    resume-Runs os gs d =
        let x = gathered_on b (collected [] us) (o ∷ os) in
        let κ = after b (collected [] us) ps in
        Runs-trans
          (subst
            (λ as'.
              Runs (claimed p (suspended b us s p ps)) (Frame.settling p o ∷ gs) resumed
                (Frame.loop p as' ∷ gs))
            (suspended-awaiters b us s p ps h)
            (settling-Runs (suspended b us s p ps) p o gs (suspended-Quiet b us s p ps h)))
          (next (step-loop resumed p _ [] gs) (
            next
              (resume-step resumed (some s.next) p κ (Frame.loop p [] ∷ gs) o
                (settled-outcome p o (suspended b us s p ps) (suspended-undone b us s p ps h))
                (ground (arith, resumed-next, h.quiet.known)))
              (Runs-trans
                (after-Runs b resumed (some s.next) (collected [] us) o ps os (Frame.loop p [] ∷ gs)
                  (resumed-AllDone os d))
                (Runs-trans (end-Runs resumed s.next x resumed-Running (Frame.loop p [] ∷ gs)) (
                  rw resumed-fresh (
                    next (step-loop_end (ended s.next x resumed) s.next (Frame.loop p [] ∷ gs))
                      (next (step-loop_end (ended s.next x resumed) p gs) stop)))))))

    -- `All` over a container of promises of which `p` is pending, with no awaiters, no lock kept and
    -- no coroutine, those before it are fulfilled with `us` and those after it are done with `os`:
    -- the call returns a new promise that is pending. When `p` is then settled with `o`, the
    -- settling comes to its end, and the promise of `All` is done with the first exception in the
    -- order of the container, or else with all values in that order, or with void.
    pub all_later :
        (qs : List ℕ) (os : List Outcome) (w : Option ℕ) (k : ℕ → Code S) (fs gs : List (Frame S))
        → AllDone s qs (map fulfilled us)
        → AllDone s ps os
        → Runs s
            (Frame.run w (all b (qs ++ (p ∷ ps)) k) ∷ fs)
            (suspended b us s p ps)
            (Frame.run w (k s.next) ∷ fs)
          × (outcome ((suspended b us s p ps).cell s.next) ≡ none)
          × ((s' : Store S) × Runs
                (claimed p (suspended b us s p ps))
                (Frame.settling p o ∷ gs)
                s'
                gs
              × (outcome (s'.cell s.next) ≡ some (gathered b (map fulfilled us ++ (o ∷ os)))))
    all_later qs os w k fs gs d d' = (
      suspend-Runs b us s p ps h qs w k fs (started-AllDone s qs (map fulfilled us) d),
      ap outcome (suspended-other b us s p ps s.next (omega (arith, h.quiet.known)) ∙ fresh),
      (
        ended s.next (gathered_on b (collected [] us) (o ∷ os)) resumed,
        resume-Runs os gs d',
        ended-outcome resumed s.next _ resumed-Running (rw resumed-fresh refl)
            ∙ ap some (
                sym
                  (gathered-on b (map fulfilled us ++ (o ∷ os)) ∙ gathered-split b us [] (o ∷ os))),
      ),
    )
