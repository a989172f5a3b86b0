-- ===== src/Sync/Mutex/Line.antt =====
-- The line of coroutines that wait for a mutex, as the promises stand in the store.
-- src/Mutex.cpp
use jspro_cpp.Prelude.{ℕ, ◌≤◌, ◌<◌, ◌≡◌, refl, sym, subst, none, some, List, [], ◌∷◌, ◌++◌, arith}
use jspro_cpp.Runtime.Code.{Awaiter}
use jspro_cpp.Runtime.Cell.{outcome}
use jspro_cpp.Runtime.Store.{Store}
use jspro_cpp.Machine.Settled.{Quiet}
use jspro_cpp.Machine.Unsettled.{Running}
use jspro_cpp.Sync.Mutex.{Mutex, lock_granted}
use jspro_cpp.Runtime.Place.{Place}

module _ {S : Type 0} where
  -- The promise `r` of a `Lock` is pending, and these wait for it.
  pub record Link (s : Store S) (r : ℕ) (as' : List (Awaiter S)) : Type 0 where
    pub quiet : Quiet s r
    pub undone : outcome (s.cell r) ≡ none
    pub queue : (s.cell r).awaiters ≡ as'

  -- The coroutine of a `Lock` that waits, with its promise `q`.
  pub record Parked (s : Store S) (q : ℕ) : Type 0 where
    pub running : Running s q
    pub undone : outcome (s.cell q) ≡ none

  pub record Same (s s' : Store S) (p : ℕ) : Type 0 where
    pub grown : s.next ≤ s'.next
    pub same : s'.cell p ≡ s.cell p

  pub Link-Same :
      (s s' : Store S) (r : ℕ) (as' : List (Awaiter S)) → Same s s' r → Link s r as' → Link s' r as'
  Link-Same s s' r as' e h = record {
    quiet = record {
      known = omega (arith, e.grown, h.quiet.known);
      open_ = rw e.same h.quiet.open_;
      unread = rw e.same h.quiet.unread;
      idle = rw e.same h.quiet.idle;
    };
    undone = rw e.same h.undone;
    queue = rw e.same h.queue;
  }

  pub Parked-Same : (s s' : Store S) (q : ℕ) → Same s s' q → Parked s q → Parked s' q
  Parked-Same s s' q e h = record {
    running = record {
      known = omega (arith, e.grown, h.running.known);
      open_ = rw e.same h.running.open_;
      unread = rw e.same h.running.unread;
      runs = rw e.same h.running.runs;
      direct = rw e.same h.running.direct;
    };
    undone = rw e.same h.undone;
  }

module _ {S : Type 0} ⦃at : Place Mutex S⦄ where
  -- From the promise `r` on: each `Lock` that waits, by its coroutine and the promise it queued, in
  -- the order in which they asked; `last` is the promise that the next `Lock` waits for.
  abbrev pub Line : Store S → ℕ → List (ℕ × ℕ) → ℕ → Type 0
  Line s r [] last = (r ≡ last) × Link s r []
  Line s r (w ∷ ws) last =
      (r < w.0)
      × (w.0 < w.1)
      × Link s r (Awaiter.coroutine (some w.0) (lock_granted w.1) ∷ [])
      × Parked s w.0
      × Line s w.1 ws last

  -- A line stays if the promises from its start on do.
  pub Line-Same :
      (s s' : Store S) (r : ℕ) (ws : List (ℕ × ℕ)) (last : ℕ)
      → ((p : ℕ) → r ≤ p → Same s s' p)
      → Line s r ws last
      → Line s' r ws last
  Line-Same s s' r [] last e h = (h.0, Link-Same s s' r [] (e r (omega arith)) h.1)
  Line-Same s s' r (w ∷ ws) last e h = (
    h.0,
    h.1,
    Link-Same s s' r _ (e r (omega arith)) h.2,
    Parked-Same s s' w.0 (e w.0 (omega (arith, h.0))) h.3,
    Line-Same s s' w.1 ws last (λ p l. e p (omega (arith, h.0, h.1))) h.4,
  )

  pub Line-known :
      (s : Store S) (r : ℕ) (ws : List (ℕ × ℕ)) (last : ℕ)
      → Line s r ws last
      → (r ≤ last) × Link s last []
  Line-known s r [] last h = (omega (arith, h.0), subst (λ x. Link s x []) h.0 h.1)
  Line-known s r (w ∷ ws) last h =
      let (l, x) = Line-known s w.1 ws last h.4 in (omega (arith, h.0, h.1), x)

  -- The line grows at its end.
  pub Line-grow :
      (s s' : Store S) (r : ℕ) (ws : List (ℕ × ℕ)) (last q r' : ℕ)
      → ((p : ℕ) → p < last → Same s s' p)
      → last < q
      → q < r'
      → Link s' last (Awaiter.coroutine (some q) (lock_granted r') ∷ [])
      → Parked s' q
      → Link s' r' []
      → Line s r ws last
      → Line s' r (ws ++ ((q, r') ∷ [])) r'
  Line-grow s s' r [] last q r' e l₁ l₂ at_last parked new h = (
    omega (arith, h.0),
    l₂,
    subst (λ x. Link s' x (Awaiter.coroutine (some q) (lock_granted r') ∷ [])) (sym h.0) at_last,
    parked,
    (refl, new),
  )
  Line-grow s s' r (w ∷ ws) last q r' e l₁ l₂ at_last parked new h =
      let (l, _) = Line-known s w.1 ws last h.4 in
      (
        h.0,
        h.1,
        Link-Same s s' r _ (e r (omega (arith, h.0, h.1))) h.2,
        Parked-Same s s' w.0 (e w.0 (omega (arith, h.1))) h.3,
        Line-grow s s' w.1 ws last q r' e l₁ l₂ at_last parked new h.4,
      )
