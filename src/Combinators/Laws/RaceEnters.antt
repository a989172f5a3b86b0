-- ===== src/Combinators/Laws/RaceEnters.antt =====
-- A pending promise enters a race: an awaiter is left on it and on the race promise so far.
-- include/promise/details/Promise.inl
use jspro_cpp.Prelude.{
  ℕ, suc, ◌≤◌, ◌<◌, ◌≡◌, ◌≢◌, ap, sym, subst, ◌∙◌, true, false, none, [], ◌∷◌, arith,
}
use jspro_cpp.Runtime.Value.{Value}
use jspro_cpp.Runtime.Code.{Code, Awaiter}
use jspro_cpp.Runtime.Cell.{Cell, blank, outcome, await_function}
use jspro_cpp.Runtime.Cell
use jspro_cpp.Runtime.Store.{Store}
use jspro_cpp.Machine.Settled.{Quiet, same-Quiet}
use jspro_cpp.Machine.Returns.{made, made-cell}
use jspro_cpp.Machine.Delivery.{
  waiting, Pending, made-other, waiting-cell, waiting-other, waiting-next,
}
use jspro_cpp.Machine.Detached.{detached, detached-next, detached-cell, detached-other}
use jspro_cpp.Combinators.Race.{race_handle}
use jspro_cpp.Combinators.Chain.{listener}
use jspro_cpp.Combinators.Laws.Tracked.{Waits, blank-Waits}
use jspro_cpp.Combinators.Laws.RaceChain.{Guarded, quit}

module _ {S : Type 0} where
  -- A promise on which one function was left, and which was detached.
  abbrev pub armed : Code S → Cell S → Cell S
  armed f c = Cell.detach (await_function f c).0

  armed-fields :
      (f : Code S) (c : Cell S)
      → ((armed f c).resolved ≡ c.resolved)
        × ((armed f c).readers ≡ c.readers)
        × ((armed f c).running ≡ c.running)
        × ((armed f c).rejected ≡ c.rejected)
        × (outcome (armed f c) ≡ outcome c)
  unfolding Cell.detach await_function
  armed-fields f c = ground arith

  armed-awaiters :
      (f : Code S) (c : Cell S)
      → c.awaiters ≡ []
      → (armed f c).awaiters ≡ Awaiter.function (suc c.use_count) f ∷ []
  unfolding Cell.detach await_function
  armed-awaiters f c e = ground arith

  armed-Quiet :
      (s s' : Store S) (q : ℕ) (f : Code S)
      → s.next ≤ s'.next
      → s'.cell q ≡ armed f (s.cell q)
      → Quiet s q
      → Quiet s' q
  armed-Quiet s s' q f n e h =
      let (a, b, c, d, e') = armed-fields f (s.cell q) in
      record {
        known = omega (arith, n, h.known);
        open_ = rw e (a ∙ h.open_);
        unread = rw e (b ∙ h.unread);
        idle = rw e (c ∙ h.idle);
      }

  -- A racer: pending, with the one awaiter that the race left.
  pub record Raced (s : Store S) (p id : ℕ) (f : Code S) : Type 0 where
    pub quiet : Quiet s p
    pub undone : outcome (s.cell p) ≡ none
    pub awaits : (s.cell p).awaiters ≡ Awaiter.function id f ∷ []

  pub Raced-same :
      (s s' : Store S) (p id : ℕ) (f : Code S)
      → s.next ≤ s'.next
      → s'.cell p ≡ s.cell p
      → Raced s p id f
      → Raced s' p id f
  Raced-same s s' p id f n e h = record {
    quiet = same-Quiet s s' p n e h.quiet;
    undone = rw e h.undone;
    awaits = rw e h.awaits;
  }

  armed-Raced :
      (s s' : Store S) (p : ℕ) (f : Code S)
      → s.next ≤ s'.next
      → s'.cell p ≡ armed f (s.cell p)
      → Pending s p
      → Raced s' p (suc (s.cell p).use_count) f
  armed-Raced s s' p f n e h = record {
    quiet = armed-Quiet s s' p f n e h.quiet;
    undone = rw e ((armed-fields f (s.cell p)).4 ∙ h.undone);
    awaits = rw e (armed-awaiters f (s.cell p) h.alone);
  }

  armed-Guarded :
      (s s' : Store S) (c : ℕ) (f : Code S)
      → s.next ≤ s'.next
      → s'.cell c ≡ armed f (s.cell c)
      → Waits s c
      → Guarded s' c f
  armed-Guarded s s' c f n e h = record {
    quiet = armed-Quiet s s' c f n e h.pending.quiet;
    undone = rw e ((armed-fields f (s.cell c)).4 ∙ h.pending.undone);
    unused = rw e ((armed-fields f (s.cell c)).3 ∙ h.unused);
    id = suc (s.cell c).use_count;
    awaits = rw e (armed-awaiters f (s.cell c) h.pending.alone);
  }

  module _ (s : Store S) (p c r : ℕ) (convert : Value → Value) where
    -- What the race leaves on the promise `p`, and on the race promise so far `c`.
    abbrev pub settler : Code S
    settler = listener p (race_handle convert r)

    abbrev pub leaver : Code S
    leaver = quit c p (suc (s.cell p).use_count) s.next

    abbrev pub noticed : Store S
    noticed = waiting p settler s

    abbrev pub linked_up : Store S
    linked_up = waiting c leaver (made noticed)

    unfoldable pub entered : Store S
    entered = detached p (detached c linked_up)

    pub entered-next : entered.next ≡ suc s.next
    unfolding entered
    entered-next =
        detached-next (detached c linked_up) p
        ∙ detached-next linked_up c
        ∙ waiting-next (made noticed) c leaver
        ∙ ap suc (waiting-next s p settler)

    module _ (n : p ≢ c) (lp : p < s.next) (lc : c < s.next) where
      pub entered-other : (q : ℕ) → q < s.next → p ≢ q → c ≢ q → entered.cell q ≡ s.cell q
      unfolding entered
      entered-other q l a e =
          detached-other (detached c linked_up) p q a
          ∙ detached-other linked_up c q e
          ∙ waiting-other (made noticed) c q leaver e
          ∙ made-other noticed q (omega (arith, waiting-next s p settler, l))
          ∙ waiting-other s p q settler a

      entered-racer : entered.cell p ≡ armed settler (s.cell p)
      unfolding entered
      entered-racer =
          detached-cell (detached c linked_up) p
          ∙ ap Cell.detach (
              detached-other linked_up c p (λ e. n (sym e))
              ∙ waiting-other (made noticed) c p leaver (λ e. n (sym e))
              ∙ made-other noticed p (omega (arith, waiting-next s p settler, lp))
              ∙ waiting-cell s p settler)

      entered-link : entered.cell c ≡ armed leaver (s.cell c)
      unfolding entered
      entered-link =
          detached-other (detached c linked_up) p c n
          ∙ detached-cell linked_up c
          ∙ ap Cell.detach (
              waiting-cell (made noticed) c leaver
              ∙ ap (λ d. (await_function leaver d).0)
                  (made-other noticed c (omega (arith, waiting-next s p settler, lc))
                    ∙ waiting-other s p c settler n))

      entered-fresh : entered.cell s.next ≡ blank true false
      unfolding entered
      entered-fresh =
          detached-other (detached c linked_up) p s.next (omega (arith, lp))
          ∙ detached-other linked_up c s.next (omega (arith, lc))
          ∙ waiting-other (made noticed) c s.next leaver (omega (arith, lc))
          ∙ subst (λ m. (made noticed).cell m ≡ blank true false) (waiting-next s p settler)
              (made-cell noticed)

      pub entered-Raced : Pending s p → Raced entered p (suc (s.cell p).use_count) settler
      entered-Raced h =
          armed-Raced s entered p settler (omega (arith, entered-next)) entered-racer h

      pub entered-Guarded : Waits s c → Guarded entered c leaver
      entered-Guarded h =
          armed-Guarded s entered c leaver (omega (arith, entered-next)) entered-link h

      pub entered-Waits : Waits entered s.next
      entered-Waits = blank-Waits entered s.next (omega (arith, entered-next)) entered-fresh
