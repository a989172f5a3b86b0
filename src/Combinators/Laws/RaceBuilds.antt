-- ===== src/Combinators/Laws/RaceBuilds.antt =====
-- The call of `Race` on pending promises builds the chain. include/promise/details/Promise.inl
use jspro_cpp.Prelude.{
  ℕ, suc, ◌<◌, ◌≡◌, ◌≢◌, ap, subst, ◌∙◌, Bool, true, Option, List, ◌∷◌, arith, lt→ltb,
}
use jspro_cpp.Runtime.Value.{Value, void, fulfilled}
use jspro_cpp.Runtime.Code.{Code}
use jspro_cpp.Runtime.Store.{Store, free}
use jspro_cpp.Machine.Exec.{Frame}
use jspro_cpp.Machine.Runs.{Runs, stop, next, Runs-trans, step-status}
use jspro_cpp.Machine.Returns.{made}
use jspro_cpp.Machine.Delivery.{
  waiting, Pending, step-on_done_wait, Quiet-free, made-other, waiting-other, waiting-next,
  waiting-readers,
}
use jspro_cpp.Machine.Detached.{detached, step-detach, detached-next, detached-readers}
use jspro_cpp.Combinators.Race.{Racer, race_one, race_all, leave_race}
use jspro_cpp.Combinators.Finally.{finally_, finally_move}
use jspro_cpp.Combinators.Chain.{registered}
use jspro_cpp.Combinators.Laws.Tracked.{Waits, same-Waits}
use jspro_cpp.Combinators.Laws.RaceChain.{quit}
use jspro_cpp.Combinators.Laws.RaceEnters.{settler, leaver, noticed, linked_up, entered}

module _ {S : Type 0} (convert : Bool → Value → Value) (v : Bool) (r : ℕ) where
  module _ (s : Store S) (x : Racer) (c : ℕ) (n : x.promise ≢ c) (h : Pending s x.promise)
      (g : Waits s c) where
    abbrev p : ℕ
    p = x.promise

    abbrev conv : Value → Value
    conv = convert x.is_void

    noticed-next : (noticed s p c r conv).next ≡ s.next
    noticed-next = waiting-next s p (settler s p c r conv)

    noticed-Pending : Pending (noticed s p c r conv) c
    noticed-Pending =
        (same-Waits s (noticed s p c r conv) c (omega (arith, noticed-next))
          (waiting-other s p c (settler s p c r conv) n) g).pending

    linked_up-next : (linked_up s p c r conv).next ≡ suc s.next
    linked_up-next =
        waiting-next (made (noticed s p c r conv)) c (leaver s p c r conv) ∙ ap suc noticed-next

    linked_up-readers :
        (q : ℕ) → q < s.next → ((linked_up s p c r conv).cell q).readers ≡ (s.cell q).readers
    linked_up-readers q l =
        waiting-readers (made (noticed s p c r conv)) c q (leaver s p c r conv)
        ∙ ap (λ d. d.readers) (made-other (noticed s p c r conv) q (omega (arith, noticed-next, l)))
        ∙ waiting-readers s p q (settler s p c r conv)

    free_link : free (linked_up s p c r conv) c ≡ true
    free_link = ground (
      arith,
      linked_up-next,
      linked_up-readers c g.pending.quiet.known,
      g.pending.quiet.known,
      g.pending.quiet.unread,
    )

    free_racer : free (detached c (linked_up s p c r conv)) p ≡ true
    free_racer = ground (
      arith,
      linked_up-next,
      detached-next (linked_up s p c r conv) c,
      detached-readers (linked_up s p c r conv) c p,
      linked_up-readers p h.quiet.known,
      h.quiet.known,
      h.quiet.unread,
    )

    -- One promise enters the race.
    pub enter-Runs :
        (xs : List Racer) (w : Option ℕ) (k : ℕ → Code S) (fs : List (Frame S))
        → Runs s
            (Frame.run w (race_all convert v (x ∷ xs) c r k) ∷ fs)
            (entered s p c r conv)
            (Frame.run w (race_all convert v xs s.next r k) ∷ fs)
    unfolding race_all race_one finally_move finally_ entered
    enter-Runs xs w k fs = next (step-status s w c _ fs (lt→ltb c s.next g.pending.quiet.known)) (
        rw g.pending.undone (
          next (step-on_done_wait s w p _ _ _ fs h.undone (Quiet-free s p h.quiet)) (
            Runs-trans
              (subst
                (λ m.
                  Runs (noticed s p c r conv)
                    (Frame.run w (
                        finally_move v c (leave_race p (suc (s.cell p).use_count))
                          (λ r'. Code.detach p (race_all convert v xs r' r k)))
                      ∷ fs)
                    (waiting c (quit c p (suc (s.cell p).use_count) m)
                      (made (noticed s p c r conv)))
                    (Frame.run w (Code.detach c (Code.detach p (race_all convert v xs m r k)))
                      ∷ fs))
                noticed-next
                (registered (noticed s p c r conv) c (fulfilled void) w _ _ _ fs noticed-Pending))
              (next (step-detach (linked_up s p c r conv) w c _ fs free_link) (
                next (step-detach (detached c (linked_up s p c r conv)) w p _ fs free_racer)
                  stop)))))
