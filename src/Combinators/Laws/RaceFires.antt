-- ===== src/Combinators/Laws/RaceFires.antt =====
-- Settling the race promise settles the chain behind it. include/promise/details/Promise.inl
use jspro_cpp.Prelude.{ℕ, ◌≤◌, ◌<◌, ◌≡◌, ◌≢◌, ap, subst, ◌∙◌, some, List, [], ◌∷◌, arith, All}
use jspro_cpp.Runtime.Value.{Outcome}
use jspro_cpp.Runtime.Code.{Code}
use jspro_cpp.Runtime.Cell.{outcome, un_await, remove_id}
use jspro_cpp.Runtime.Store.{Store}
use jspro_cpp.Machine.Settled.{
  same-Quiet, reported, reported-outcome, reported-other, reported-next,
}
use jspro_cpp.Combinators.Laws.Tracked.{Waits, same-Waits}
use jspro_cpp.Combinators.Laws.RaceChain.{
  Guarded, RaceChain, alone, linked, Shrunk, Shrunk-eq, Shrunk-trans, left, left-other, left-cell,
  left-next, left-Shrunk,
}

module _ {S : Type 0} where
  pub Guarded-same :
      (s s' : Store S) (c : ℕ) (f : Code S)
      → s.next ≤ s'.next
      → s'.cell c ≡ s.cell c
      → Guarded s c f
      → Guarded s' c f
  Guarded-same s s' c f n e g = record {
    quiet = same-Quiet s s' c n e g.quiet;
    undone = rw e g.undone;
    unused = rw e g.unused;
    id = g.id;
    awaits = rw e g.awaits;
  }

  -- The chain stays where the promises from its first on are as they were.
  pub RaceChain-same :
      (b : ℕ) (s s' : Store S) (c last : ℕ) (es : List (ℕ × ℕ))
      → s.next ≤ s'.next
      → ((q : ℕ) → c ≤ q → s'.cell q ≡ s.cell q)
      → ((q : ℕ) → q < b → (s'.cell q).readers ≡ (s.cell q).readers)
      → RaceChain b s c es last
      → RaceChain b s' c es last
  RaceChain-same b s s' c last es n e r (alone l h) =
      alone l (same-Waits s s' c n (e c (omega arith)) h)
  RaceChain-same b s s' c last es n e r (linked {x = x} {es = es'} l m i u g h) =
      linked l m i (r x i ∙ u) (Guarded-same s s' c _ n (e c (omega arith)) g)
        (RaceChain-same b s s' _ last es' n (λ q k. e q (omega (arith, m, k))) r h)

  -- What the settling of a chain does: the last promise is settled, every racer loses the awaiter
  -- that the race left, and no racer changes otherwise.
  pub record Fired (b : ℕ) (s s' : Store S) (last : ℕ) (es : List (ℕ × ℕ)) (o : Outcome)
      : Type 0 where
    pub done : outcome (s'.cell last) ≡ some o
    pub shrunk : (q : ℕ) → q < b → Shrunk (s.cell q) (s'.cell q)
    pub taken :
        All (λ e. remove_id e.1 (s.cell e.0).awaiters ≡ []) es
        → All (λ e. (s'.cell e.0).awaiters ≡ []) es

  module _ (b : ℕ) (s : Store S) (o : Outcome) where
    pub alone-Fired : (c : ℕ) → b ≤ c → Waits s c → Fired b s (reported o c s) c [] o
    alone-Fired c l h = record {
      done = reported-outcome o c s h.pending.undone;
      shrunk = λ q m.
          Shrunk-eq (s.cell q) ((reported o c s).cell q) (reported-other o c q s (omega arith));
      taken = λ t. tt;
    }

    module _ (c x id : ℕ) (l : b ≤ c) (i : x < b) where
      abbrev pub passed : Store S
      passed = left x id (reported o c s)

      pub passed-next : passed.next ≡ s.next
      passed-next = left-next (reported o c s) x id ∙ reported-next o c s

      pub passed-other : (q : ℕ) → x ≢ q → c ≢ q → passed.cell q ≡ s.cell q
      passed-other q n m = left-other (reported o c s) x id q n ∙ reported-other o c q s m

      passed-racer : passed.cell x ≡ (un_await id (s.cell x)).0
      passed-racer =
          left-cell (reported o c s) x id
          ∙ ap (λ d. (un_await id d).0) (reported-other o c x s (omega (arith, l, i)))

      pub passed-Shrunk : (q : ℕ) → q < b → Shrunk (s.cell q) (passed.cell q)
      passed-Shrunk q m =
          subst (λ d. Shrunk d (passed.cell q)) (reported-other o c q s (omega (arith, l, m)))
            (left-Shrunk (reported o c s) x id q)

      pub linked-Fired :
          (s' : Store S) (last : ℕ) (es : List (ℕ × ℕ))
          → All (λ e. (e.0 < b) × (x ≢ e.0)) es
          → Fired b passed s' last es o
          → Fired b s s' last ((x, id) ∷ es) o
      unfolding un_await
      linked-Fired s' last es d f = record {
        done = f.done;
        shrunk = λ q m.
            Shrunk-trans (s.cell q) (passed.cell q) (s'.cell q) (passed-Shrunk q m) (f.shrunk q m);
        taken = λ t. (
          (f.shrunk x i).emptied (ap (λ d. d.awaiters) passed-racer ∙ t.0),
          f.taken (others es d t.1),
        );
      }
        where
          others :
              (es : List (ℕ × ℕ))
              → All (λ e. (e.0 < b) × (x ≢ e.0)) es
              → All (λ e. remove_id e.1 (s.cell e.0).awaiters ≡ []) es
              → All (λ e. remove_id e.1 (passed.cell e.0).awaiters ≡ []) es
          others [] d t = tt
          others (e ∷ es) d t = (
            ap (λ d. remove_id e.1 d.awaiters) (passed-other e.0 d.0.1 (omega (arith, l, d.0.0)))
                ∙ t.0,
            others es d.1 t.1,
          )
