-- ===== src/Machine/Stepped.antt =====
-- What one step of one frame keeps, and owes to the rest of the program.
use jspro_cpp.Prelude.{
  ℕ, suc, ◌+◌, ◌≤◌, ◌<◌, ◌≡◌, refl, Bool, true, false, none, some, List, [], ◌∷◌, arith, ◌==◌,
  update, update-all, to_ℕ, All,
}
use jspro_cpp.Runtime.Value.{Outcome}
use jspro_cpp.Runtime.Cell.{Cell, blank, holds, is_done, outcome}
use jspro_cpp.Runtime.CellInvariant.{CellOk, Keeps, blank-CellOk}
use jspro_cpp.Runtime.Wakes.{Wakes, same-Wakes, blank-Wakes}
use jspro_cpp.Runtime.Store.{Store, write, alloc, valid}
use jspro_cpp.Machine.Exec.{Frame, Result, guard}

module _ {S : Type 0} where
  -- 1 if the frame is about to store the outcome of promise `q`.
  abbrev pub token : ℕ → Frame S → ℕ
  token q (Frame.settling p o) = to_ℕ (p == q)
  token q _ = 0

  abbrev pub tokens : ℕ → List (Frame S) → ℕ
  tokens q [] = 0
  tokens q (f ∷ fs) = token q f + tokens q fs

  -- A resumed coroutine, and awaiters that are being run, find their promise done; the promise of a
  -- sleeping thread has notified if what the thread waits for holds.
  abbrev pub FrameOk : Store S → Frame S → Type 0
  FrameOk s (Frame.resume w p k) = is_done (s.cell p) ≡ true
  FrameOk s (Frame.loop p (a ∷ as')) = is_done (s.cell p) ≡ true
  FrameOk s (Frame.asleep w p q n k) =
      (n ≤ (s.cell p).notified) × (holds q (s.cell p) ≡ true → n < (s.cell p).notified)
  FrameOk s _ = Unit {0}

  pub record StoreOk (s : Store S) : Type 0 where
    pub cells : (p : ℕ) → CellOk (s.cell p)
    pub fresh : (p : ℕ) → s.next ≤ p → s.cell p ≡ blank false false

  -- What the store only gains: promises, and at most one awaiter each in a step. A coroutine that
  -- has ended stays so, and no condition comes to hold unheard.
  pub record Grows (s s' : Store S) : Type 0 where
    pub next : s.next ≤ s'.next
    pub used : (p : ℕ) → (s'.cell p).use_count ≤ suc (s.cell p).use_count
    pub ended :
        (p : ℕ) → valid s p ≡ true → (s.cell p).running ≡ false → (s'.cell p).running ≡ false
    pub wakes : (p : ℕ) → Wakes (s.cell p) (s'.cell p)

  pub same-Grows : (s : Store S) → Grows s s
  same-Grows s = record {
    next = omega arith;
    used = λ p. omega arith;
    ended = λ p v e. e;
    wakes = λ p. same-Wakes (s.cell p);
  }

  pub record Stepped (s : Store S) (f : Frame S) (r : Store S × List (Frame S)) : Type 0 where
    pub store : StoreOk r.0
    pub stable : (p : ℕ) (o : Outcome) → outcome (s.cell p) ≡ some o → outcome (r.0.cell p) ≡ some o
    pub balance :
        (q : ℕ)
        → tokens q r.1 + to_ℕ (is_done (r.0.cell q)) + to_ℕ (s.cell q).resolved
          ≡ token q f + to_ℕ (is_done (s.cell q)) + to_ℕ (r.0.cell q).resolved
    pub frames : All (FrameOk r.0) r.1
    pub grows : Grows s r.0

  abbrev pub Ensures : Store S → Frame S → Result S → Type 0
  Ensures s f none = Unit {0}
  Ensures s f (some r) = Stepped s f r

  pub outcome→done : (c : Cell S) (o : Outcome) → outcome c ≡ some o → is_done c ≡ true
  outcome→done c o e = ground arith

  pub guard-Ensures :
      (s : Store S) (f : Frame S) (b : Bool) (r : Store S × List (Frame S))
      → (b ≡ true → Stepped s f r)
      → Ensures s f (guard b r)
  guard-Ensures s f true r h = h refl
  guard-Ensures s f false r h = tt

  module _ (s : Store S) (ok : StoreOk s) (f : Frame S) where
    pub same_store :
        (fs : List (Frame S))
        → ((q : ℕ) → tokens q fs ≡ token q f)
        → All (FrameOk s) fs
        → Stepped s f (s, fs)
    same_store fs t h = record {
      store = ok;
      stable = λ p o e. e;
      balance = λ q. rw (t q);
      frames = h;
      grows = same-Grows s;
    }

    pub written :
        (p : ℕ) (c : Cell S) (fs : List (Frame S))
        → valid s p ≡ true
        → Keeps (s.cell p) c
        → ((q : ℕ)
            → tokens q fs + to_ℕ (is_done (update s.cell p c q)) + to_ℕ (s.cell q).resolved
              ≡ token q f + to_ℕ (is_done (s.cell q)) + to_ℕ (update s.cell p c q).resolved)
        → All (FrameOk (write p c s)) fs
        → Stepped s f (write p c s, fs)
    written p c fs v k b h = record {
      store = record {
        cells = update-all (λ _ x. CellOk x) s.cell p c k.fits ok.cells;
        fresh = λ q l. ground (arith, ok.fresh q l);
      };
      stable =
          update-all (λ q x. (o : Outcome) → outcome (s.cell q) ≡ some o → outcome x ≡ some o)
            s.cell p c k.stable (λ q o e. e);
      balance = b;
      frames = h;
      grows = record {
        next = omega arith;
        used =
            update-all (λ q x. x.use_count ≤ suc (s.cell q).use_count) s.cell p c k.used
              (λ q. omega arith);
        ended =
            update-all (λ q x. valid s q ≡ true → (s.cell q).running ≡ false → x.running ≡ false)
              s.cell p c (λ _. k.ended) (λ q _ e. e);
        wakes =
            update-all (λ q x. Wakes (s.cell q) x) s.cell p c k.wakes (λ q. same-Wakes (s.cell q));
      };
    }

    alloc-Grows : (r h : Bool) → Grows s (alloc (blank r h) s)
    alloc-Grows r h = record {
      next = omega arith;
      used =
          update-all (λ q x. x.use_count ≤ suc (s.cell q).use_count) s.cell s.next (blank r h)
            (omega arith) (λ q. omega arith);
      ended =
          update-all (λ q x. valid s q ≡ true → (s.cell q).running ≡ false → x.running ≡ false)
            s.cell s.next (blank r h) (λ v. ground arith) (λ q _ e. e);
      wakes =
          update-all (λ q x. Wakes (s.cell q) x) s.cell s.next (blank r h)
            (rw (ok.fresh s.next (omega arith)) (blank-Wakes r h)) (λ q. same-Wakes (s.cell q));
    }

    pub allocated :
        (r h : Bool) (fs : List (Frame S))
        → ((q : ℕ) → tokens q fs ≡ token q f)
        → All (FrameOk (alloc (blank r h) s)) fs
        → Stepped s f (alloc (blank r h) s, fs)
    allocated r h fs t x = record {
      store = record {
        cells = update-all (λ _ x. CellOk x) s.cell s.next (blank r h) (blank-CellOk r h) ok.cells;
        fresh = λ q l. ground (arith, ok.fresh q (omega arith));
      };
      stable =
          update-all (λ q x. (o : Outcome) → outcome (s.cell q) ≡ some o → outcome x ≡ some o)
            s.cell s.next (blank r h) (λ o e. rw (ok.fresh s.next (omega arith)) at e) (λ q o e. e);
      balance = λ q. ground (arith, t q, ok.fresh s.next (omega arith));
      frames = x;
      grows = alloc-Grows r h;
    }
