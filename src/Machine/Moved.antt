-- ===== src/Machine/Moved.antt =====
-- What a turn of one of several threads does to the store, to the frames and to the tokens.
use mathlib.Core.Option
use jspro_cpp.Prelude.{
  ℕ, zero, suc, ◌+◌, ◌≤◌, ◌<◌, ◌≡◌, refl, true, false, none, some, List, [], ◌∷◌, ◌++◌, arith, to_ℕ,
  All, All-append, All-map, Option-cases, Bool-cases, inl, inr,
}
use jspro_cpp.Runtime.Value.{Outcome}
use jspro_cpp.Runtime.Cell.{Cell, Condition, holds, is_done, outcome}
use jspro_cpp.Runtime.Wakes.{Wakes}
use jspro_cpp.Runtime.Store.{Store}
use jspro_cpp.Machine.Exec.{Frame, Result, exec}
use jspro_cpp.Machine.Threads.{step, settled_step, turn_at}
use jspro_cpp.Machine.Stepped.{tokens, FrameOk, StoreOk, Ensures, Grows, same-Grows, outcome→done}
use jspro_cpp.Machine.Steps.{exec-Ensures}

module _ {S : Type 0} where
  -- How many threads' stacks are about to store the outcome of promise `q`.
  abbrev pub total : ℕ → List (List (Frame S)) → ℕ
  total q [] = 0
  total q (t ∷ ts) = tokens q t + total q ts

  -- What a step of one stack, or of one of several, does to the store and to the tokens.
  pub record Moved (s : Store S) (before : ℕ → ℕ) (s' : Store S) (after : ℕ → ℕ) : Type 0 where
    pub store : StoreOk s'
    pub stable : (p : ℕ) (o : Outcome) → outcome (s.cell p) ≡ some o → outcome (s'.cell p) ≡ some o
    pub balance :
        (q : ℕ)
        → after q + to_ℕ (is_done (s'.cell q)) + to_ℕ (s.cell q).resolved
          ≡ before q + to_ℕ (is_done (s.cell q)) + to_ℕ (s'.cell q).resolved
    pub grows : Grows s s'

  tokens-append : (q : ℕ) (fs gs : List (Frame S)) → tokens q (fs ++ gs) ≡ tokens q fs + tokens q gs
  tokens-append q [] gs = omega arith
  tokens-append q (f ∷ fs) gs = omega (arith, tokens-append q fs gs)

  not_done : (c : Cell S) → outcome c ≡ none → is_done c ≡ false
  not_done c e = ground arith

  pub done→outcome : (c : Cell S) → is_done c ≡ true → (o : Outcome) × (outcome c ≡ some o)
  done→outcome c d = elim (Option-cases (outcome c)) [
    | inl e ↦ cc (not_done c e)
    | inr found ↦ found
  ]

  -- A sleeping thread stays one that has to wake up once what it waits for holds.
  asleep-stable :
      (c c' : Cell S) (q : Condition) (n : ℕ)
      → Wakes c c'
      → n ≤ c.notified
      → (holds q c ≡ true → n < c.notified)
      → (n ≤ c'.notified) × (holds q c' ≡ true → n < c'.notified)
  asleep-stable c c' q n x l h = (
    omega (arith, l, x.louder),
    λ t. elim (Bool-cases (holds q c)) [
      | inl e ↦ omega (arith, h e, x.louder)
      | inr e ↦ omega (arith, l, x.heard q e t)
    ],
  )

  module _ (s s' : Store S)
      (stable : (p : ℕ) (o : Outcome) → outcome (s.cell p) ≡ some o → outcome (s'.cell p) ≡ some o)
      (wakes : (p : ℕ) → Wakes (s.cell p) (s'.cell p)) where
    done-stable : (p : ℕ) → is_done (s.cell p) ≡ true → is_done (s'.cell p) ≡ true
    done-stable p d =
        let (o, e) = done→outcome (s.cell p) d in outcome→done (s'.cell p) o (stable p o e)

    FrameOk-stable : (f : Frame S) → FrameOk s f → FrameOk s' f
    FrameOk-stable (Frame.resume w p k) h = done-stable p h
    FrameOk-stable (Frame.loop p (a ∷ as')) h = done-stable p h
    FrameOk-stable (Frame.loop p []) h = tt
    FrameOk-stable (Frame.run w c) h = tt
    FrameOk-stable (Frame.attempt p o) h = tt
    FrameOk-stable (Frame.settling p o) h = tt
    FrameOk-stable (Frame.finish p) h = tt
    FrameOk-stable (Frame.asleep w p q n k) h =
        asleep-stable (s.cell p) (s'.cell p) q n (wakes p) h.0 h.1

    stacks-stable :
        (ts : List (List (Frame S))) → All (All (FrameOk s)) ts → All (All (FrameOk s')) ts
    stacks-stable ts h = All-map _ _ ts (λ t x. All-map _ _ t FrameOk-stable x) h

  unmoved : (s : Store S) (b : ℕ → ℕ) → StoreOk s → Moved s b s b
  unmoved s b ok = record {
    store = ok;
    stable = λ p o e. e;
    balance = λ q. refl;
    grows = same-Grows s;
  }

  stack-Moved :
      (s : Store S) (f : Frame S) (fs : List (Frame S)) (o : Result S)
      → StoreOk s
      → All (FrameOk s) (f ∷ fs)
      → Ensures s f o
      → let r = settled_step s (f ∷ fs) (Option.map (λ r. (r.0, r.1 ++ fs)) o) in
        Moved s (λ q. tokens q (f ∷ fs)) r.0 (λ q. tokens q r.1) × All (FrameOk r.0) r.1
  stack-Moved s f fs none ok h e = (unmoved s _ ok, h)
  stack-Moved s f fs (some r) ok h e = (
    record {
      store = e.store;
      stable = e.stable;
      balance = λ q. omega (arith, tokens-append q r.1 fs, e.balance q);
      grows = e.grows;
    },
    All-append _ r.1 fs e.frames (All-map _ _ fs (FrameOk-stable s r.0 e.stable e.grows.wakes) h.1),
  )

  step-Moved :
      (s : Store S) (t : List (Frame S))
      → StoreOk s
      → All (FrameOk s) t
      → ((q : ℕ) → tokens q t + to_ℕ (is_done (s.cell q)) ≤ to_ℕ (s.cell q).resolved)
      → let r = settled_step s t (step s t) in
        Moved s (λ q. tokens q t) r.0 (λ q. tokens q r.1) × All (FrameOk r.0) r.1
  unfolding step
  step-Moved s [] ok h b = (unmoved s _ ok, tt)
  step-Moved s (f ∷ fs) ok h b =
      stack-Moved s f fs (exec f s) ok h (exec-Ensures s ok f h.0 (λ q. omega (arith, b q)))

  pub turn_at-Moved :
      (i : ℕ) (s : Store S) (ts : List (List (Frame S)))
      → StoreOk s
      → All (All (FrameOk s)) ts
      → ((q : ℕ) → total q ts + to_ℕ (is_done (s.cell q)) ≤ to_ℕ (s.cell q).resolved)
      → let m = turn_at i s ts in
        Moved s (λ q. total q ts) m.store (λ q. total q m.threads)
        × All (All (FrameOk m.store)) m.threads
  unfolding turn_at
  turn_at-Moved i s [] ok h b = (unmoved s _ ok, tt)
  turn_at-Moved zero s (t ∷ ts) ok h b =
      let (v, x) = step-Moved s t ok h.0 (λ q. omega (arith, b q)) in
      (
        record {
          store = v.store;
          stable = v.stable;
          balance = λ q. omega (arith, v.balance q);
          grows = v.grows;
        },
        (x, stacks-stable s (settled_step s t (step s t)).0 v.stable v.grows.wakes ts h.1),
      )
  turn_at-Moved (suc i) s (t ∷ ts) ok h b =
      let (v, x) = turn_at-Moved i s ts ok h.1 (λ q. omega (arith, b q)) in
      (
        record {
          store = v.store;
          stable = v.stable;
          balance = λ q. omega (arith, v.balance q);
          grows = v.grows;
        },
        (All-map _ _ t (FrameOk-stable s (turn_at i s ts).store v.stable v.grows.wakes) h.0, x),
      )
