-- ===== src/Machine/Progress.antt =====
-- What the counters of a promise come to, and who gets on: a coroutine that was resumed and a
-- thread that waits for a promise. include/promise/details/Handle.inl, Promise.inl
use jspro_cpp.Prelude.{
  ℕ, ◌≤◌, ◌<◌, ◌==◌, ◌≡◌, refl, ap, subst, true, false, Option, none, some, List, [], ◌∷◌, ◌++◌,
  arith, length, All,
}
use jspro_cpp.Runtime.Value.{Outcome}
use jspro_cpp.Runtime.Code.{Code}
use jspro_cpp.Runtime.Cell.{Condition, holds, is_done, outcome}
use jspro_cpp.Runtime.CellInvariant.{IdsFrom}
use jspro_cpp.Runtime.Store.{Store, valid}
use jspro_cpp.Machine.Exec.{Frame, exec, exec_code, read_outcome}
use jspro_cpp.Machine.Threads.{Machine, step, turn, turn_at, schedule}
use jspro_cpp.Machine.Stepped.{FrameOk, StoreOk}
use jspro_cpp.Machine.Moved.{done→outcome}
use jspro_cpp.Machine.Invariant.{Inv, boot, boot-Inv, schedule-Inv, schedule-used, schedule-Wakes}
use jspro_cpp.Machine.Safety.{reached, reached-Inv}

heard_since : (n m : ℕ) → n < m → (m == n) ≡ false
heard_since n m h = ground arith

module _ {S : Type 0} where
  -- For all code `cs` and every schedule `is`: a promise has no more awaiters than it has counted
  -- uses, has counted no more uses than there were turns, and the ids of the functions that wait
  -- on it grow along the list and lie above 0 and not above the count. So after fewer than 2 ^ 64
  -- turns no counter and no id has wrapped around.
  pub awaiters_bounded :
      (v : S) (cs : List (Code S)) (is : List ℕ) (p : ℕ)
      → let c = (reached v cs is).store.cell p in
        (length c.awaiters ≤ c.use_count)
        × (c.use_count ≤ length is)
        × IdsFrom 0 c.awaiters c.use_count
  awaiters_bounded v cs is p =
      let ok = (reached-Inv v cs is).store.cells p in
      (ok.counted, omega (arith, schedule-used is (boot v cs) p (boot-Inv v cs)), ok.ids)

  -- The turn of the thread between the others.
  turn_at-split :
      (s s' : Store S) (t t' : List (Frame S)) (xs ys : List (List (Frame S)))
      → step s t ≡ some (s', t')
      → turn_at (length xs) s (xs ++ (t ∷ ys)) ≡ record { store = s'; threads = xs ++ (t' ∷ ys) }
  unfolding turn_at
  turn_at-split s s' t t' [] ys e = rw e refl
  turn_at-split s s' t t' (x ∷ xs) ys e = rw (turn_at-split s s' t t' xs ys e) refl

  turn-split :
      (m : Machine S) (s' : Store S) (t t' : List (Frame S)) (xs ys : List (List (Frame S)))
      → m.threads ≡ xs ++ (t ∷ ys)
      → step m.store t ≡ some (s', t')
      → turn (length xs) m ≡ record { store = s'; threads = xs ++ (t' ∷ ys) }
  unfolding turn
  turn-split m s' t t' xs ys h e = rw h (turn_at-split m.store s' t t' xs ys e)

  done→valid : (s : Store S) (p : ℕ) → StoreOk s → is_done (s.cell p) ≡ true → valid s p ≡ true
  done→valid s p ok d = ground (arith, ok.fresh p)

  middle :
      (P : List (Frame S) → Type 0) (t : List (Frame S)) (xs ys : List (List (Frame S)))
      → All P (xs ++ (t ∷ ys))
      → P t
  middle P t [] ys h = h.0
  middle P t (x ∷ xs) ys h = middle P t xs ys h.1

  pub resume-step :
      (s : Store S) (w : Option ℕ) (p : ℕ) (k : Outcome → Code S) (fs : List (Frame S))
      (o : Outcome)
      → outcome (s.cell p) ≡ some o
      → valid s p ≡ true
      → step s (Frame.resume w p k ∷ fs) ≡ some (s, Frame.run w (k o) ∷ fs)
  unfolding step exec read_outcome
  resume-step s w p k fs o e v = rw (e, read_outcome) (rw v)

  -- For all code `cs` and every schedule `is`: when a coroutine that waited for `p` was resumed on
  -- some thread, with others before and after it, the promise has an outcome, and the next turn of
  -- the thread goes on in the coroutine with it. So the assertion of `await_resume` holds.
  pub resumed_goes_on :
      (v : S) (cs : List (Code S)) (is : List ℕ) (w : Option ℕ) (p : ℕ) (k : Outcome → Code S)
      (fs : List (Frame S)) (xs ys : List (List (Frame S)))
      → (reached v cs is).threads ≡ xs ++ ((Frame.resume w p k ∷ fs) ∷ ys)
      → (o : Outcome) × (outcome ((reached v cs is).store.cell p) ≡ some o)
        × ((turn (length xs) (reached v cs is)).threads ≡ xs ++ ((Frame.run w (k o) ∷ fs) ∷ ys))
  resumed_goes_on v cs is w p k fs xs ys e = (
    found.0,
    found.1,
    ap Machine.threads (
        turn-split m m.store (Frame.resume w p k ∷ fs) (Frame.run w (k found.0) ∷ fs) xs ys e
          (resume-step m.store w p k fs found.0 found.1 (done→valid m.store p inv.store done))),
  )
    where
      m : Machine S
      m = reached v cs is

      inv : Inv m
      inv = reached-Inv v cs is

      done : is_done (m.store.cell p) ≡ true
      done =
          (middle (All (FrameOk m.store)) (Frame.resume w p k ∷ fs) xs ys
            (subst (All (All (FrameOk m.store))) e inv.frames)).0

      found : (o : Outcome) × (outcome (m.store.cell p) ≡ some o)
      found = done→outcome (m.store.cell p) done

  -- A thread that waits for a condition: it is about to call `WaitDone` or `WaitAwaited`, or it has
  -- fallen asleep in the call when the promise had notified `n` times.
  abbrev pub waiting_on : Option ℕ → ℕ → Condition → Option ℕ → Code S → Frame S
  waiting_on w p Condition.done none k = Frame.run w (Code.wait_done p k)
  waiting_on w p (Condition.used u) none k = Frame.run w (Code.wait_awaited p u k)
  waiting_on w p q (some n) k = Frame.asleep w p q n k

  holds→valid :
      (s : Store S) (p : ℕ) (q : Condition)
      → StoreOk s
      → holds q (s.cell p) ≡ true
      → valid s p ≡ true
  holds→valid s p Condition.done ok h = ground (arith, ok.fresh p)
  holds→valid s p (Condition.used n) ok h = ground (arith, ok.fresh p)

  waiting_on-step :
      (s : Store S) (w : Option ℕ) (p : ℕ) (q : Condition) (n : Option ℕ) (k : Code S)
      (fs : List (Frame S))
      → valid s p ≡ true
      → holds q (s.cell p) ≡ true
      → FrameOk s (waiting_on w p q n k)
      → step s (waiting_on w p q n k ∷ fs) ≡ some (s, Frame.run w k ∷ fs)
  unfolding step exec exec_code
  waiting_on-step s w p Condition.done none k fs v h x = rw (v, h) refl
  waiting_on-step s w p (Condition.used u) none k fs v h x = rw (v, h) refl
  waiting_on-step s w p q (some n) k fs v h x =
      rw (v, h, heard_since n (s.cell p).notified (x.1 h)) refl

  -- For all code `cs` and every schedule `is` after which what `WaitDone` on the promise `p` waits
  -- for holds (`p` is done and its coroutine has ended), or what `WaitAwaited` waits for (it was
  -- used more often than the given count): whatever schedule `js` comes then, a thread that waits
  -- for it, with others before and after it, goes on at its next turn. It may be about to call, or
  -- asleep in the call since any earlier turn: then the promise has notified since it fell asleep,
  -- without which it would have no step.
  pub wait_released :
      (v : S) (cs : List (Code S)) (is js : List ℕ) (w : Option ℕ) (p : ℕ) (q : Condition)
      (n : Option ℕ) (k : Code S) (fs : List (Frame S)) (xs ys : List (List (Frame S)))
      → holds q ((reached v cs is).store.cell p) ≡ true
      → (schedule js (reached v cs is)).threads ≡ xs ++ ((waiting_on w p q n k ∷ fs) ∷ ys)
      → (turn (length xs) (schedule js (reached v cs is))).threads
        ≡ xs ++ ((Frame.run w k ∷ fs) ∷ ys)
  wait_released v cs is js w p q n k fs xs ys h e = ap Machine.threads (
      turn-split m m.store (waiting_on w p q n k ∷ fs) (Frame.run w k ∷ fs) xs ys e (
        waiting_on-step m.store w p q n k fs (holds→valid m.store p q inv.store now) now
          (middle (All (FrameOk m.store)) (waiting_on w p q n k ∷ fs) xs ys
            (subst (All (All (FrameOk m.store))) e inv.frames)).0))
    where
      m : Machine S
      m = schedule js (reached v cs is)

      inv : Inv m
      inv = schedule-Inv js (reached v cs is) (reached-Inv v cs is)

      now : holds q (m.store.cell p) ≡ true
      now = (schedule-Wakes js (reached v cs is) p (reached-Inv v cs is)).lasting q h
