-- ===== src/Machine/Kept.antt =====
-- The steps that await, resume or read a promise, and those that wait for one, are `Stepped`.
-- include/promise/details/Promise.inl, Handle.inl
use jspro_cpp.Prelude.{
  ℕ, ◌≤◌, ◌≡◌, refl, Bool, true, false, Option, none, some, List, [], ◌∷◌, arith, All,
}
use jspro_cpp.Runtime.Value.{Outcome}
use jspro_cpp.Runtime.Code.{Code}
use jspro_cpp.Runtime.Cell.{
  Cell, Condition, blank, holds, is_done, outcome, settle, on_resolved, release_handle,
  await_coroutine, await_function,
}
use jspro_cpp.Runtime.Cell
use jspro_cpp.Runtime.CellInvariant.{Keeps, await_coroutine-Keeps, await_function-Keeps}
use jspro_cpp.Runtime.Wakes.{Wakes-trans}
use jspro_cpp.Runtime.Store.{Store, write, alloc, valid, free}
use jspro_cpp.Machine.Exec.{
  Frame, suspend_or_resume, await_or_go, create_or_go, read_outcome, wait_or_go,
}
use jspro_cpp.Machine.Stepped.{
  token, tokens, FrameOk, StoreOk, Stepped, Ensures, guard-Ensures, same_store, written, allocated,
}

module _ {S : Type 0} where
  pub free→valid : (s : Store S) (p : ℕ) → free s p ≡ true → valid s p ≡ true
  free→valid s p h = ground arith

  Stepped-trans :
      (s s' : Store S) (f : Frame S) (r : Store S × List (Frame S))
      → Stepped s f (s', f ∷ [])
      → ((q : ℕ) → (s'.cell q).use_count ≤ (s.cell q).use_count)
      → Stepped s' f r
      → Stepped s f r
  Stepped-trans s s' f r a u b = record {
    store = b.store;
    stable = λ p o e. b.stable p o (a.stable p o e);
    balance = λ q. omega (arith, a.balance q, b.balance q);
    frames = b.frames;
    grows = record {
      next = omega (arith, a.grows.next, b.grows.next);
      used = λ q. omega (arith, u q, b.grows.used q);
      ended = λ q v e. b.grows.ended q (ground (arith, a.grows.next)) (a.grows.ended q v e);
      wakes = λ q. Wakes-trans _ _ _ (a.grows.wakes q) (b.grows.wakes q);
    };
  }

  module _ (s : Store S) (ok : StoreOk s) where
    -- A change of one promise that stores no outcome and leaves `resolved` alone.
    pub kept :
        (w : Option ℕ) (k : Code S) (p : ℕ) (c : Cell S) (fs : List (Frame S))
        → valid s p ≡ true
        → Keeps (s.cell p) c
        → is_done c ≡ is_done (s.cell p)
        → c.resolved ≡ (s.cell p).resolved
        → ((q : ℕ) → tokens q fs ≡ 0)
        → All (FrameOk (write p c s)) fs
        → Stepped s (Frame.run w k) (write p c s, fs)
    kept w k p c fs v x d r t h =
        written s ok (Frame.run w k) p c fs v x (λ q. ground (arith, t q)) h

    pub suspend_or_resume-Ensures :
        (o : Option Outcome) (w : Option ℕ) (c : Code S) (p : ℕ) (k : Outcome → Code S)
        → outcome (s.cell p) ≡ o
        → Ensures s (Frame.run w c) (suspend_or_resume o w p k s)
    unfolding suspend_or_resume await_coroutine
    suspend_or_resume-Ensures (some o) w c p k e =
        guard-Ensures s _ (valid s p) _
          (λ _. same_store s ok _ (Frame.run w (k o) ∷ []) (λ q. refl) (tt, tt))
    suspend_or_resume-Ensures none w c p k e = guard-Ensures s _ (free s p) _ (λ v.
        kept w c p _ [] (free→valid s p v) (await_coroutine-Keeps (s.cell p) (ok.cells p) w k e)
          refl refl (λ q. refl) tt)

    pub await_or_go-Ensures :
        (o : Option Outcome) (w : Option ℕ) (c : Code S) (p : ℕ) (f : Code S) (k : Outcome → Code S)
        (d : ℕ → Code S)
        → outcome (s.cell p) ≡ o
        → Ensures s (Frame.run w c) (await_or_go o w p f k d s)
    unfolding await_or_go await_function
    await_or_go-Ensures (some o) w c p f k d e =
        guard-Ensures s _ (free s p) _
          (λ _. same_store s ok _ (Frame.run w (k o) ∷ []) (λ q. refl) (tt, tt))
    await_or_go-Ensures none w c p f k d e = guard-Ensures s _ (free s p) _ (λ v.
        kept w c p _ (Frame.run w (d _) ∷ []) (free→valid s p v)
          (await_function-Keeps (s.cell p) (ok.cells p) f e) refl refl (λ q. refl) (tt, tt))

    pub read_outcome-Ensures :
        (o : Option Outcome) (f : Frame S) (w : Option ℕ) (p : ℕ) (k : Outcome → Code S)
        → ((q : ℕ) → token q f ≡ 0)
        → Ensures s f (read_outcome o w p k s)
    unfolding read_outcome
    read_outcome-Ensures (some o) f w p k t =
        guard-Ensures s f (valid s p) _
          (λ _. same_store s ok f (Frame.run w (k o) ∷ []) (λ q. rw (t q)) (tt, tt))
    read_outcome-Ensures none f w p k t = tt

  pub create_or_go-Ensures :
      (s : Store S) (ok : StoreOk s) (o : Option Outcome) (w : Option ℕ) (c : Code S) (p : ℕ)
      (f : ℕ → Code S) (k : Outcome → Code S) (d : ℕ → Code S)
      → outcome (s.cell p) ≡ o
      → Ensures s (Frame.run w c) (create_or_go o w p f k d s)
  unfolding create_or_go await_function
  create_or_go-Ensures s ok (some o) w c p f k d e =
      guard-Ensures s _ (free s p) _
        (λ _. same_store s ok _ (Frame.run w (k o) ∷ []) (λ q. refl) (tt, tt))
  create_or_go-Ensures s ok none w c p f k d e = guard-Ensures s _ (free s p) _ λ v.
      Stepped-trans s _ _ _ made unused (
        kept s' made.store w c p (await_function (f s.next) (s.cell p)).0
          (Frame.run w (d s.next) ∷ []) (ground arith)
          (rw (same (free→valid s p v)) (await_function-Keeps (s.cell p) (ok.cells p) (f s.next) e))
          (rw (same (free→valid s p v))) (rw (same (free→valid s p v))) (λ q. refl) (tt, tt))
    where
      s' : Store S
      s' = alloc (blank true false) s

      same : valid s p ≡ true → s'.cell p ≡ s.cell p
      same v = ground arith

      unused : (q : ℕ) → (s'.cell q).use_count ≤ (s.cell q).use_count
      unused q = ground arith

      made : Stepped s (Frame.run w c) (s', Frame.run w c ∷ [])
      made = allocated s ok (Frame.run w c) true false (Frame.run w c ∷ []) (λ q. refl) (tt, tt)

  pub un_await-flags :
      (id : ℕ) (c : Cell S)
      → (is_done (Cell.un_await id c).0 ≡ is_done c)
        × ((Cell.un_await id c).0.resolved ≡ c.resolved)
  unfolding Cell.un_await
  un_await-flags id c = (refl, refl)

  pub detach-flags :
      (c : Cell S) → (is_done (Cell.detach c) ≡ is_done c) × ((Cell.detach c).resolved ≡ c.resolved)
  unfolding Cell.detach
  detach-flags c = ground arith

  -- A thread reads the condition and falls asleep if it does not hold.
  pub wait_or_go-Stepped :
      (s : Store S) (ok : StoreOk s) (b : Bool) (f : Frame S) (w : Option ℕ) (p : ℕ) (q : Condition)
      (k : Code S)
      → ((q' : ℕ) → token q' f ≡ 0)
      → holds q (s.cell p) ≡ b
      → Stepped s f (s, wait_or_go b w p q k s)
  wait_or_go-Stepped s ok true f w p q k t e =
      same_store s ok f (Frame.run w k ∷ []) (λ q'. rw (t q')) (tt, tt)
  wait_or_go-Stepped s ok false f w p q k t e =
      same_store s ok f (Frame.asleep w p q (s.cell p).notified k ∷ []) (λ q'. rw (t q'))
        ((omega arith, λ h. cc), tt)

  -- The conditions read what is done, what runs and the count of uses.
  pub unread :
      (c c' : Cell S)
      → c'.value ≡ c.value
      → c'.exception ≡ c.exception
      → c'.running ≡ c.running
      → c'.use_count ≡ c.use_count
      → (q : Condition) → holds q c' ≡ holds q c
  unread c c' v x r u Condition.done = rw (v, x, r)
  unread c c' v x r u (Condition.used n) = rw u
