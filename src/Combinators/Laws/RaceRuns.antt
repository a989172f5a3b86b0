-- ===== src/Combinators/Laws/RaceRuns.antt =====
-- The run of the chain when the race promise is settled. include/promise/details/Promise.inl
use jspro_cpp.Prelude.{ℕ, ◌≤◌, ◌<◌, ◌≡◌, subst, true, Option, none, List, [], ◌∷◌, arith, lt→ltb}
use jspro_cpp.Runtime.Value.{Outcome}
use jspro_cpp.Runtime.Code.{Code, Awaiter}
use jspro_cpp.Runtime.Store.{Store, free}
use jspro_cpp.Machine.Exec.{Frame}
use jspro_cpp.Machine.Runs.{Runs, stop, next, Runs-trans, step-read}
use jspro_cpp.Machine.Settled.{
  reported, report, report-Runs, reported-outcome, reported-other, reported-next,
}
use jspro_cpp.Machine.Returns.{report_alone-Runs}
use jspro_cpp.Machine.Waking.{step-loop}
use jspro_cpp.Combinators.Fun.{done_void}
use jspro_cpp.Combinators.Finally.{finally_body}
use jspro_cpp.Combinators.Race.{leave_race}
use jspro_cpp.Combinators.Chain.{body_end}
use jspro_cpp.Combinators.Laws.RaceChain.{
  Guarded, quit, RaceChain, alone, linked, Separate, step-un_await, quit-body,
}
use jspro_cpp.Combinators.Laws.RaceFires.{
  RaceChain-same, Fired, alone-Fired, linked-Fired, passed, passed-next, passed-other,
  passed-Shrunk,
}

module _ {S : Type 0} (b : ℕ) (o : Outcome) where
  module _ (s : Store S) (c x id r : ℕ) (l : b ≤ c) (m : c < r) (i : x < b) where
    -- The settling of one promise of the chain goes on to the settling of the next.
    link-Runs :
        (w : Option ℕ) (k : Code S) (fs : List (Frame S))
        → (s.cell x).readers ≡ 0
        → Guarded s c (quit c x id r)
        → Runs s
            (Frame.run w (report o c k) ∷ fs)
            (passed b s o c x id l i)
            (Frame.run none (report o r done_void) ∷ Frame.loop c [] ∷ Frame.run w k ∷ fs)
    link-Runs w k fs u g =
        Runs-trans
          (subst
            (λ as'.
              Runs s (Frame.run w (report o c k) ∷ fs) (reported o c s)
                (Frame.loop c as' ∷ Frame.run w k ∷ fs))
            g.awaits (report-Runs s w o c k fs g.quiet g.unused))
          (next
            (step-loop (reported o c s) c (Awaiter.function g.id (quit c x id r)) []
              (Frame.run w k ∷ fs))
            (next
              (step-read (reported o c s) none c (λ q. finally_body (leave_race x id) r q done_void)
                (Frame.loop c [] ∷ Frame.run w k ∷ fs) o (reported-outcome o c s g.undone)
                (lt→ltb c (reported o c s).next
                  (omega (arith, reported-next o c s, g.quiet.known))))
              (rw (quit-body {S = S} x id r o) (
                next
                  (step-un_await (reported o c s) none x id (λ _. report o r done_void)
                    (Frame.loop c [] ∷ Frame.run w k ∷ fs) free_racer)
                  stop))))
      where
        free_racer : free (reported o c s) x ≡ true
        free_racer = ground (
          arith,
          reported-next o c s,
          reported-other o c x s (omega (arith, l, i)),
          g.quiet.known,
          l,
          i,
          u,
        )

    passed-RaceChain :
        (last : ℕ) (es : List (ℕ × ℕ))
        → RaceChain b s r es last
        → RaceChain b (passed b s o c x id l i) r es last
    passed-RaceChain last es h =
        RaceChain-same b s (passed b s o c x id l i) r last es
          (omega (arith, passed-next b s o c x id l i))
          (λ q k. passed-other b s o c x id l i q (omega (arith, l, m, i, k)) (omega (arith, m, k)))
          (λ q k. (passed-Shrunk b s o c x id l i q k).readers) h

  -- When the first promise of a chain is settled, the run comes to its end and the last one is
  -- settled with the same outcome.
  pub chain-Runs :
      (es : List (ℕ × ℕ)) (s : Store S) (c last : ℕ) (w : Option ℕ) (k : Code S)
      (fs : List (Frame S))
      → RaceChain b s c es last
      → Separate b es
      → (s' : Store S) × Runs s (Frame.run w (report o c k) ∷ fs) s' (Frame.run w k ∷ fs)
        × Fired b s s' last es o
  chain-Runs [] s c last w k fs (alone l h) d = (
    reported o c s,
    report_alone-Runs s w o c k fs h.pending.quiet h.unused h.pending.alone,
    alone-Fired b s o c l h,
  )
  chain-Runs ((x, id) ∷ es') s c last w k fs (linked {r = r} l m i u g h) d =
      let (s', runs, fired) =
        chain-Runs es' (passed b s o c x id l i) r last none done_void
          (Frame.loop c [] ∷ Frame.run w k ∷ fs) (passed-RaceChain s c x id r l m i last es' h)
          d.2 in
      (
        s',
        Runs-trans (link-Runs s c x id r l m i w k fs u g)
            (Runs-trans runs (body_end s' c o s' (Frame.run w k ∷ fs))),
        linked-Fired b s o c x id l i s' last es' d.1 fired,
      )
