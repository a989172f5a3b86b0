-- ===== src/Combinators/Laws/RaceSeats.antt =====
-- The promises of a race and the awaiters that the race left on them.
-- include/promise/details/Promise.inl
use jspro_cpp.Prelude.{
  ℕ, ◌<◌, ◌≡◌, ◌≢◌, refl, ap, sym, subst, Bool, inl, inr, List, [], ◌∷◌, arith, All, ==_refl, ◌==◌,
  ==→eq, Bool-cases,
}
use mathlib.Core.List.{Memᴰ}
use mathlib.Core.List.Memᴰ.{head, tail}
use jspro_cpp.Runtime.Value.{Value, Outcome}
use jspro_cpp.Runtime.Code.{Code}
use jspro_cpp.Runtime.Cell.{remove_id}
use jspro_cpp.Runtime.Store.{Store}
use jspro_cpp.Machine.Settled.{settled, settled-other, settled-emptied}
use jspro_cpp.Combinators.Race.{Racer, race_handle}
use jspro_cpp.Combinators.Chain.{listener}
use jspro_cpp.Combinators.Laws.RaceChain.{Separate}
use jspro_cpp.Combinators.Laws.RaceEnters.{Raced}
use jspro_cpp.Combinators.Laws.RaceWaiting.{Apart, Enlisted, Racing}

module _ {S : Type 0} (convert : Bool → Value → Value) (r : ℕ) (s : Store S) where
  -- What the race left on one of its promises.
  pub seat :
      (xs : List Racer) (es : List (ℕ × ℕ)) (x : Racer)
      → Memᴰ x xs
      → Racing convert r s xs es
      → (id : ℕ) × Raced s x.promise id (listener x.promise (race_handle (convert x.is_void) r))
  seat [] es x m h = elim m [ ]
  seat (y ∷ ys) [] x m h = absurd h
  seat (y ∷ ys) (e ∷ es) x (head i) h = (
    e.1,
    subst (λ z. Raced s z.promise e.1 (listener z.promise (race_handle (convert z.is_void) r)))
        (sym i) h.1,
  )
  seat (y ∷ ys) (e ∷ es) x (tail m) h = seat ys es x m h.2

  module _ (b : ℕ) (s' : Store S) where
    pub seats-Separate :
        (xs : List Racer) (es : List (ℕ × ℕ))
        → Racing convert r s xs es
        → Enlisted b s' xs
        → Apart xs
        → Separate b es
    seats-Separate [] [] h e a = tt
    seats-Separate [] (i ∷ is) h e a = absurd h
    seats-Separate (x ∷ xs) [] h e a = absurd h
    seats-Separate (x ∷ xs) (i ∷ is) h e a =
        (omega (arith, h.0, e.0.0), others xs is h.2 e.1 a.0, seats-Separate xs is h.2 e.1 a.1)
      where
        others :
            (xs : List Racer) (is : List (ℕ × ℕ))
            → Racing convert r s xs is
            → Enlisted b s' xs
            → All (λ y. x.promise ≢ y.promise) xs
            → All (λ i'. (i'.0 < b) × (i.0 ≢ i'.0)) is
        others [] [] h' e' n = tt
        others [] (j ∷ js) h' e' n = absurd h'
        others (y ∷ ys) [] h' e' n = absurd h'
        others (y ∷ ys) (j ∷ js) h' e' n = (
          (omega (arith, h'.0, e'.0.0), λ q. n.0 (omega (arith, h.0, h'.0, q))),
          others ys js h'.2 e'.1 n.1,
        )

  -- A property of the promises that got an awaiter is one of the promises of the race.
  pub seats-All :
      (P : ℕ → Type 0) (xs : List Racer) (es : List (ℕ × ℕ))
      → Racing convert r s xs es
      → All (λ e. P e.0) es
      → All (λ x. P x.promise) xs
  seats-All P [] [] h a = tt
  seats-All P [] (e ∷ es) h a = absurd h
  seats-All P (x ∷ xs) [] h a = absurd h
  seats-All P (x ∷ xs) (e ∷ es) h a = (subst P h.0 a.0, seats-All P xs es h.2 a.1)

  -- When one promise is settled the race has at most its own awaiter on every promise.
  module _ (p : ℕ) (o : Outcome) where
    seat-left :
        (q id : ℕ) (f : Code S)
        → Raced s q id f
        → remove_id id ((settled p o s).cell q).awaiters ≡ []
    unfolding remove_id
    seat-left q id f h = elim (Bool-cases (p == q)) [
      | inl e ↦ ap (remove_id id) (
          subst (λ p'. ((settled p' o s).cell q).awaiters ≡ []) (sym (==→eq p q e))
            (settled-emptied q o s h.quiet.idle))
      | inr e ↦ rw (settled-other p q o s (λ i. ground (arith, e, i)), h.awaits, ==_refl id) refl
    ]

    pub seats-left :
        (xs : List Racer) (es : List (ℕ × ℕ))
        → Racing convert r s xs es
        → All (λ e. remove_id e.1 ((settled p o s).cell e.0).awaiters ≡ []) es
    seats-left [] [] h = tt
    seats-left [] (e ∷ es) h = absurd h
    seats-left (x ∷ xs) [] h = absurd h
    seats-left (x ∷ xs) (e ∷ es) h = (
      subst (λ q. remove_id e.1 ((settled p o s).cell q).awaiters ≡ []) (sym h.0)
          (seat-left x.promise e.1 _ h.1),
      seats-left xs es h.2,
    )
