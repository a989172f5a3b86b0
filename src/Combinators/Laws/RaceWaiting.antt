-- ===== src/Combinators/Laws/RaceWaiting.antt =====
-- What the call of `Race` on pending promises leaves on all of them.
-- include/promise/details/Promise.inl
use jspro_cpp.Prelude.{
  ℕ, suc, ◌≤◌, ◌<◌, ◌≡◌, ◌≢◌, refl, sym, ◌∙◌, Bool, Option, List, [], ◌∷◌, arith, All, All-map,
}
use jspro_cpp.Runtime.Value.{Value}
use jspro_cpp.Runtime.Code.{Code}
use jspro_cpp.Runtime.Store.{Store}
use jspro_cpp.Machine.Exec.{Frame}
use jspro_cpp.Machine.Runs.{Runs, stop, Runs-trans}
use jspro_cpp.Machine.Delivery.{Pending, same-Pending}
use jspro_cpp.Combinators.Race.{Racer, race_handle, race_all}
use jspro_cpp.Combinators.Chain.{listener}
use jspro_cpp.Combinators.Laws.Tracked.{Waits}
use jspro_cpp.Combinators.Laws.RaceChain.{RaceChain, alone, linked}
use jspro_cpp.Combinators.Laws.RaceFires.{Guarded-same}
use jspro_cpp.Combinators.Laws.RaceEnters.{
  settler, leaver, entered, entered-next, entered-other, entered-Raced, entered-Guarded,
  entered-Waits, Raced, Raced-same,
}
use jspro_cpp.Combinators.Laws.RaceBuilds.{enter-Runs}

-- Promises of a race are different.
abbrev pub Apart : List Racer → Type 0
Apart [] = Unit {0}
Apart (x ∷ xs) = All (λ y. x.promise ≢ y.promise) xs × Apart xs

apart-sym : (p : ℕ) (xs : List Racer) → All (λ y. p ≢ y.promise) xs → All (λ y. y.promise ≢ p) xs
apart-sym p xs h = All-map (λ y. p ≢ y.promise) (λ y. y.promise ≢ p) xs (λ y n e. n (sym e)) h

module _ {S : Type 0} where
  -- Promises that are pending, and older than the promise of the race.
  abbrev pub Enlisted : ℕ → Store S → List Racer → Type 0
  Enlisted b s xs = All (λ x. (x.promise < b) × Pending s x.promise) xs

  -- Every promise of the race has the awaiter that the race left on it, and no other.
  abbrev pub Racing : (Bool → Value → Value) → ℕ → Store S → List Racer → List (ℕ × ℕ) → Type 0
  Racing convert r s [] [] = Unit {0}
  Racing convert r s [] (e ∷ es) = ⊥
  Racing convert r s (x ∷ xs) [] = ⊥
  Racing convert r s (x ∷ xs) (e ∷ es) =
      (e.0 ≡ x.promise)
      × Raced s x.promise e.1 (listener x.promise (race_handle (convert x.is_void) r))
      × Racing convert r s xs es

  -- The store once all promises take part.
  pub record Raceable (convert : Bool → Value → Value) (b r c : ℕ) (s s' : Store S)
      (xs : List Racer) (last : ℕ) (es : List (ℕ × ℕ)) : Type 0 where
    pub grown : s.next ≤ s'.next
    pub chain : RaceChain b s' c es last
    pub racing : Racing convert r s' xs es
    pub kept : (q : ℕ) → q < s.next → c ≢ q → All (λ x. x.promise ≢ q) xs → s'.cell q ≡ s.cell q

  older-apart :
      (b q : ℕ) (s : Store S) (xs : List Racer)
      → b ≤ q
      → Enlisted b s xs
      → All (λ x. x.promise ≢ q) xs
  older-apart b q s xs l h =
      All-map (λ x. (x.promise < b) × Pending s x.promise) (λ x. x.promise ≢ q) xs
        (λ x i e. omega (arith, i.0, l, e)) h

  module _ (convert : Bool → Value → Value) (v : Bool) (b r : ℕ) (w : Option ℕ) (k : ℕ → Code S)
      (fs : List (Frame S)) where
    module _ (s : Store S) (c : ℕ) (l : b ≤ c) (g : Waits s c) (x : Racer) (i : x.promise < b)
        (h : Pending s x.promise) where
      abbrev first : Store S
      first = entered s x.promise c r (convert x.is_void)

      first-next : first.next ≡ suc s.next
      first-next = entered-next s x.promise c r (convert x.is_void)

      not_current : x.promise ≢ c
      not_current e = omega (arith, i, l, e)

      first-other : (q : ℕ) → q < s.next → x.promise ≢ q → c ≢ q → first.cell q ≡ s.cell q
      first-other =
          entered-other s x.promise c r (convert x.is_void) not_current h.quiet.known
            g.pending.quiet.known

      rest-Enlisted :
          (xs : List Racer)
          → All (λ y. x.promise ≢ y.promise) xs
          → Enlisted b s xs
          → Enlisted b first xs
      rest-Enlisted [] a e = tt
      rest-Enlisted (y ∷ ys) a e = (
        (
          e.0.0,
          same-Pending s first y.promise (omega (arith, first-next))
              (first-other y.promise e.0.1.quiet.known a.0 (omega (arith, l, e.0.0))) e.0.1,
        ),
        rest-Enlisted ys a.1 e.1,
      )

      first-Raceable :
          (s' : Store S) (xs : List Racer) (last : ℕ) (es : List (ℕ × ℕ))
          → All (λ y. x.promise ≢ y.promise) xs
          → Enlisted b s xs
          → Raceable convert b r s.next first s' xs last es
          → Raceable convert b r c s s'
              (x ∷ xs)
              last
              ((x.promise, suc (s.cell x.promise).use_count) ∷ es)
      first-Raceable s' xs last es a e t = record {
        grown = omega (arith, t.grown, first-next);
        chain =
            linked l g.pending.quiet.known i racer.quiet.unread
              (Guarded-same first s' c (leaver s x.promise c r (convert x.is_void)) t.grown
                (t.kept c (omega (arith, first-next, g.pending.quiet.known))
                  (omega (arith, g.pending.quiet.known)) (older-apart b c s xs l e))
                (entered-Guarded s x.promise c r (convert x.is_void) not_current h.quiet.known
                  g.pending.quiet.known g))
              t.chain;
        racing = (refl, racer, t.racing);
        kept = λ q m n d.
            t.kept q (omega (arith, m, first-next)) (omega (arith, m)) d.1 ∙ first-other q m d.0 n;
      }
        where
          racer :
              Raced s' x.promise
                (suc (s.cell x.promise).use_count)
                (settler s x.promise c r (convert x.is_void))
          racer =
              Raced-same first s' x.promise (suc (s.cell x.promise).use_count)
                (settler s x.promise c r (convert x.is_void)) t.grown
                (t.kept x.promise (omega (arith, first-next, h.quiet.known))
                  (omega (arith, h.quiet.known)) (apart-sym x.promise xs a))
                (entered-Raced s x.promise c r (convert x.is_void) not_current h.quiet.known
                  g.pending.quiet.known h)

    -- All promises enter the race.
    pub enlist-Runs :
        (xs : List Racer) (s : Store S) (c : ℕ)
        → b ≤ c
        → Waits s c
        → Enlisted b s xs
        → Apart xs
        → (s' : Store S) × (last : ℕ) × (es : List (ℕ × ℕ)) × Runs s
            (Frame.run w (race_all convert v xs c r k) ∷ fs)
            s'
            (Frame.run w (k last) ∷ fs)
          × Raceable convert b r c s s' xs last es
    unfolding race_all
    enlist-Runs [] s c l g e a = (
      s,
      c,
      [],
      stop,
      record { grown = omega arith; chain = alone l g; racing = tt; kept = λ q m n d. refl },
    )
    enlist-Runs (x ∷ xs) s c l g e a =
        let i = e.0.0 in
        let h = e.0.1 in
        let n = not_current s c l g x i h in
        let (s', last, es, runs, t) =
          enlist-Runs xs (first s c l g x i h) s.next (omega (arith, l, g.pending.quiet.known))
            (entered-Waits s x.promise c r (convert x.is_void) n h.quiet.known
              g.pending.quiet.known)
            (rest-Enlisted s c l g x i h xs a.0 e.1) a.1 in
        (
          s',
          last,
          (x.promise, suc (s.cell x.promise).use_count) ∷ es,
          Runs-trans (enter-Runs convert v r s x c n h g xs w k fs) runs,
          first-Raceable s c l g x i h s' xs last es a.0 e.1 t,
        )
