-- ===== src/Combinators/Laws/Spared.antt =====
-- What a chain leaves alone: the shared state, and older promises but two.
use jspro_cpp.Prelude.{ℕ, ◌≤◌, ◌<◌, ◌≡◌, ◌≢◌, refl, ◌∙◌, arith}
use jspro_cpp.Runtime.Value.{Outcome}
use jspro_cpp.Runtime.Store.{Store}
use jspro_cpp.Machine.Settled.{reported, reported-other, reported-next, reported-shared}
use jspro_cpp.Machine.Returns.{made, made_done}
use jspro_cpp.Machine.Delivery.{made-other}
use jspro_cpp.Machine.Detached.{detached, detached-next, detached-other, detached-shared}

-- `p` is none of the promises below `b`, or is `q` or `r`.
abbrev pub Apart : ℕ → ℕ → ℕ → ℕ → Type 0
Apart b q r p = (x : ℕ) → x < b → q ≢ x → r ≢ x → p ≢ x

module _ {S : Type 0} where
  -- The promises below `b` but `q` and `r` are as they were, and so is the shared state.
  pub record Spared (b q r : ℕ) (s s' : Store S) : Type 0 where
    pub shared : s'.shared ≡ s.shared
    pub grown : s.next ≤ s'.next
    pub same : (x : ℕ) → x < b → q ≢ x → r ≢ x → s'.cell x ≡ s.cell x

  module _ {b q r : ℕ} where
    pub Spared-trans :
        {s s' s'' : Store S} → Spared b q r s s' → Spared b q r s' s'' → Spared b q r s s''
    Spared-trans h h' = record {
      shared = h'.shared ∙ h.shared;
      grown = omega (arith, h.grown, h'.grown);
      same = λ x l n m. h'.same x l n m ∙ h.same x l n m;
    }

    pub made-Spared : (s : Store S) → b ≤ s.next → Spared b q r s (made s)
    made-Spared s l = record {
      shared = refl;
      grown = omega arith;
      same = λ x m _ _. made-other s x (omega (arith, l, m));
    }

    pub reported-Spared :
        (s : Store S) (o : Outcome) (p : ℕ) → Apart b q r p → Spared b q r s (reported o p s)
    reported-Spared s o p a = record {
      shared = reported-shared o p s;
      grown = omega (arith, reported-next o p s);
      same = λ x l n m. reported-other o p x s (a x l n m);
    }

    pub detached-Spared : (s : Store S) (p : ℕ) → Apart b q r p → Spared b q r s (detached p s)
    detached-Spared s p a = record {
      shared = detached-shared s p;
      grown = omega (arith, detached-next s p);
      same = λ x l n m. detached-other s p x (a x l n m);
    }

    pub made_done-Spared : (s : Store S) (o : Outcome) → b ≤ s.next → Spared b q r s (made_done o s)
    made_done-Spared s o l =
        Spared-trans (made-Spared s l)
          (reported-Spared (made s) o s.next (λ x m _ _ e. omega (arith, l, m, e)))
