-- ===== src/Combinators/Laws/RaceLater.antt =====
-- `Race` over promises of which none is done. include/promise/details/Promise.inl, helpers.inl
use jspro_cpp.Prelude.{
  ℕ, ◌≤◌, ◌<◌, ◌≡◌, sym, subst, Bool, Option, none, some, List, [], ◌∷◌, arith, All, lt→ltb,
}
use mathlib.Core.List.{Memᴰ}
use jspro_cpp.Runtime.Value.{Value, Outcome}
use jspro_cpp.Runtime.Code.{Code, Awaiter}
use jspro_cpp.Runtime.Cell.{outcome}
use jspro_cpp.Runtime.Store.{Store}
use jspro_cpp.Machine.Exec.{Frame}
use jspro_cpp.Machine.Runs.{Runs, stop, next, Runs-trans, step-read}
use jspro_cpp.Machine.Settled.{
  claimed, settled, settling-Runs, settled-outcome, settled-other, settled-next, settled-readers,
  report,
}
use jspro_cpp.Machine.Returns.{made, create-Runs}
use jspro_cpp.Machine.Delivery.{Pending, same-Pending, made-other}
use jspro_cpp.Machine.Waking.{step-loop}
use jspro_cpp.Combinators.Spec.{mapped}
use jspro_cpp.Combinators.Fun.{done_void}
use jspro_cpp.Combinators.Race.{Racer, all_void, has_void, race_value, race_handle, race}
use jspro_cpp.Combinators.Chain.{listener, body_end}
use jspro_cpp.Combinators.Laws.Tracked.{new-Waits}
use jspro_cpp.Combinators.Laws.RaceLaws.{won, handle-report}
use jspro_cpp.Combinators.Laws.RaceChain.{RaceChain, alone, linked}
use jspro_cpp.Combinators.Laws.RaceFires.{RaceChain-same}
use jspro_cpp.Combinators.Laws.RaceRuns.{chain-Runs}
use jspro_cpp.Combinators.Laws.RaceEnters.{Raced}
use jspro_cpp.Combinators.Laws.RaceWaiting.{Apart, Enlisted, Raceable, enlist-Runs}
use jspro_cpp.Combinators.Laws.RaceSeats.{seat, seats-Separate, seats-All, seats-left}

module _ {S : Type 0} where
  -- The promise that `Race` returns is pending.
  chain-undone :
      (b : ℕ) (s : Store S) (c last : ℕ) (es : List (ℕ × ℕ))
      → RaceChain b s c es last
      → outcome (s.cell last) ≡ none
  chain-undone b s c last es (alone l h) = h.pending.undone
  chain-undone b s c last es (linked {r = r} {es = es'} l m i u g h) = chain-undone b s r last es' h

  -- The race promise is older than the chain behind it.
  chain-from :
      (b : ℕ) (s : Store S) (c last : ℕ) (es : List (ℕ × ℕ)) → RaceChain b s c es last → b ≤ c
  chain-from b s c last es (alone l h) = l
  chain-from b s c last es (linked l m i u g h) = l

  module _ (convert : Bool → Value → Value) (b r : ℕ) (s s' : Store S) (xs : List Racer) (last : ℕ)
      (es : List (ℕ × ℕ)) (t : Raceable convert b r r s s' xs last es) (x : Racer) (m : Memᴰ x xs)
      (i : x.promise < b) (o : Outcome) where
    abbrev p : ℕ
    p = x.promise

    abbrev x' : Outcome
    x' = mapped (convert x.is_void) o

    -- The awaiter of the race reports the outcome to the race promise.
    first-Runs :
        (gs : List (Frame S)) (id : ℕ)
        → Raced s' p id (listener p (race_handle (convert x.is_void) r))
        → Runs
            (claimed p s')
            (Frame.settling p o ∷ gs)
            (settled p o s')
            (Frame.run none (report x' r done_void) ∷ Frame.loop p [] ∷ gs)
    first-Runs gs id h =
        Runs-trans
          (subst
            (λ as'.
              Runs (claimed p s') (Frame.settling p o ∷ gs) (settled p o s')
                (Frame.loop p as' ∷ gs))
            h.awaits (settling-Runs s' p o gs h.quiet))
          (next
            (step-loop (settled p o s') p
              (Awaiter.function id (listener p (race_handle (convert x.is_void) r))) [] gs)
            (next
              (step-read (settled p o s') none p
                (λ q. race_handle (convert x.is_void) r q done_void) (Frame.loop p [] ∷ gs) o
                (settled-outcome p o s' h.undone)
                (lt→ltb p (settled p o s').next
                  (omega (arith, settled-next p o s', h.quiet.known))))
              (rw (handle-report {S = S} (convert x.is_void) r o done_void) stop)))

    settled-RaceChain : RaceChain b (settled p o s') r es last
    settled-RaceChain =
        RaceChain-same b s' (settled p o s') r last es (omega (arith, settled-next p o s'))
          (λ q l. settled-other p q o s' (omega (arith, i, l, chain-from b s' r last es t.chain)))
          (λ q l. settled-readers p o s' q) t.chain

    -- The settling of a promise of the race comes to its end.
    decide-Runs :
        (gs : List (Frame S)) (s'' : Store S)
        → Enlisted b s'' xs
        → Apart xs
        → (s₁ : Store S) × Runs (claimed p s') (Frame.settling p o ∷ gs) s₁ gs
          × (outcome (s₁.cell last) ≡ some x')
          × All (λ y. (s₁.cell y.promise).awaiters ≡ []) xs
    decide-Runs gs s'' e a =
        let (id, h) = seat convert r s' xs es x m t.racing in
        let (s₁, runs, fired) =
          chain-Runs b x' es (settled p o s') r last none done_void (Frame.loop p [] ∷ gs)
            settled-RaceChain (seats-Separate convert r s' b s'' xs es t.racing e a) in
        (
          s₁,
          Runs-trans (first-Runs gs id h) (Runs-trans runs (body_end s₁ p o s₁ gs)),
          fired.done,
          seats-All convert r s' (λ q. (s₁.cell q).awaiters ≡ []) xs es t.racing
              (fired.taken (seats-left convert r s' p o xs es t.racing)),
        )

  -- A promise that takes part is pending: no awaiters, no lock kept, no coroutine.
  abbrev pub Entrants : Store S → List Racer → Type 0
  Entrants s xs = All (λ x. Pending s x.promise) xs

  Entrants-Enlisted : (s : Store S) (xs : List Racer) → Entrants s xs → Enlisted s.next (made s) xs
  Entrants-Enlisted s [] h = tt
  Entrants-Enlisted s (x ∷ xs) h = (
    (
      h.0.quiet.known,
      same-Pending s (made s) x.promise (omega arith) (made-other s x.promise h.0.quiet.known) h.0,
    ),
    Entrants-Enlisted s xs h.1,
  )

  entrant-known :
      (s : Store S) (xs : List Racer) (x : Racer) → Memᴰ x xs → Entrants s xs → x.promise < s.next
  entrant-known s [] x m h = elim m [ ]
  entrant-known s (y ∷ ys) x (Memᴰ.head e) h =
      subst (λ z. z.promise < s.next) (sym e) h.0.quiet.known
  entrant-known s (y ∷ ys) x (Memᴰ.tail m) h = entrant-known s ys x m h.1

  -- `Race` over different promises that are all pending, with no awaiters, no lock kept and no
  -- coroutine, returns a promise that is pending. When one of them is then settled with `o`, the
  -- settling comes to its end; the promise of the race is done with `o`, its value converted as the
  -- types of the race ask, and no awaiter of the race is left on any of the promises.
  pub race_later :
      (s : Store S) (xs : List Racer) (x : Racer) (o : Outcome) (w : Option ℕ) (k : ℕ → Code S)
      (fs gs : List (Frame S))
      → Entrants s xs
      → Apart xs
      → Memᴰ x xs
      → (s' : Store S) × (last : ℕ) × Runs s
          (Frame.run w (race xs k) ∷ fs)
          s'
          (Frame.run w (k last) ∷ fs)
        × (outcome (s'.cell last) ≡ none)
        × ((s'' : Store S) × Runs (claimed x.promise s') (Frame.settling x.promise o ∷ gs) s'' gs
            × (outcome (s''.cell last) ≡ some (won xs x o))
            × All (λ y. (s''.cell y.promise).awaiters ≡ []) xs)
  unfolding race
  race_later s xs x o w k fs gs h a m =
      let convert = race_value (all_void xs) (has_void xs) in
      let b = s.next in
      let e = Entrants-Enlisted s xs h in
      let (s', last, es, runs, t) =
        enlist-Runs convert (all_void xs) b b w k fs xs (made s) b (omega arith) (new-Waits s) e
          a in
      (
        s',
        last,
        Runs-trans (create-Runs s w _ fs) runs,
        chain-undone b s' b last es t.chain,
        decide-Runs convert b b (made s) s' xs last es t x m (entrant-known s xs x m h) o gs
            (made s) e a,
      )
