-- ===== src/Combinators/Laws/HeldLock.antt =====
-- Where a continuation runs while the lock of the promise is held, and where it does not.
-- include/promise/details/Promise.inl
use jspro_cpp.Prelude.{
  ℕ, suc, ◌<◌, ◌≡◌, refl, ◌∙◌, true, false, Option, none, some, List, ◌∷◌, arith, lt→ltb, ==_refl,
}
use jspro_cpp.Runtime.Value.{Value, Outcome, fulfilled}
use jspro_cpp.Runtime.Code.{Code}
use jspro_cpp.Runtime.Cell.{outcome}
use jspro_cpp.Runtime.Store.{Store, write, free}
use jspro_cpp.Machine.Exec.{Frame, exec, exec_code, create_or_go}
use jspro_cpp.Machine.Threads.{step}
use jspro_cpp.Machine.Runs.{Runs, stop, next, step-on_done_or_create}
use jspro_cpp.Machine.Unsettled.{started, step-start}
use jspro_cpp.Combinators.Fun.{Fun, make_promise, then_plain, then_now}
use jspro_cpp.Combinators.Then.{then_, then_promise, then_promise_now}

module _ {S : Type 0} where
  -- A shared lock that is kept.
  reading : ℕ → Store S → Store S
  reading p s = write p (record (s.cell p) { readers = suc (s.cell p).readers }) s

  step-lock_shared :
      (s : Store S) (w : Option ℕ) (p : ℕ) (k : Code S) (fs : List (Frame S))
      → p < s.next
      → step s (Frame.run w (Code.lock_shared p k) ∷ fs) ≡ some (reading p s, Frame.run w k ∷ fs)
  unfolding step exec exec_code reading
  step-lock_shared s w p k fs l = rw (lt→ltb p s.next l) refl

  -- A chaining call on a promise whose shared lock is kept cannot go on.
  step-blocked :
      (s : Store S) (w : Option ℕ) (p : ℕ) (f : ℕ → Code S) (k : Outcome → Code S) (d : ℕ → Code S)
      (fs : List (Frame S)) (o : Outcome)
      → outcome (s.cell p) ≡ some o
      → free s p ≡ false
      → step s (Frame.run w (Code.on_done_or_create p f k d) ∷ fs) ≡ none
  unfolding step exec exec_code create_or_go
  step-blocked s w p f k d fs o e v = rw (e, create_or_go) (rw v)

  inside : ℕ → Store S → Store S
  inside p s = started (reading p s)

  inside-outcome :
      (s : Store S) (p : ℕ) → p < s.next → outcome ((inside p s).cell p) ≡ outcome (s.cell p)
  unfolding inside reading
  inside-outcome s p l = ground arith

  inside-free : (s : Store S) (p : ℕ) → p < s.next → free (inside p s) p ≡ false
  unfolding inside reading
  inside-free s p l = ground arith

  -- Nobody keeps a shared lock.
  abbrev pub unlocked : ℕ → Store S → Store S
  unlocked p s = write p (record (s.cell p) { readers = 0 }) s

  unlocked-outcome : (s : Store S) (p : ℕ) → outcome ((unlocked p s).cell p) ≡ outcome (s.cell p)
  unlocked-outcome s p = rw (==_refl p) refl

  -- The inner call, made by the coroutine of the outer one, which then gives its lock up.
  abbrev pub inner_call :
      Store S
      → ℕ
      → Option ℕ
      → (Value → Code S)
      → (ℕ → Code S)
      → (ℕ → Code S)
      → List (Frame S)
      → List (Frame S)
  inner_call s p w g j k fs =
      Frame.run (some s.next) (then_plain p g j)
      ∷ Frame.run w (Code.unlock_shared p (k s.next))
      ∷ fs

  module _ (s : Store S) (p : ℕ) (v : Value) (w : Option ℕ) (g : Value → Code S) (j k : ℕ → Code S)
      (fs : List (Frame S)) where
    -- On a promise that is fulfilled, with no shared lock kept on it, `Then` is called with a
    -- coroutine that calls `Then` with a plain function on the same promise. If it is a promise of
    -- void, the thread comes to the inner call while it keeps the one shared lock on the promise,
    -- which only its own next frame gives up, and the inner call cannot go on; were the lock not
    -- kept, the same frames would go on with the continuation of the inner call. If it is not a
    -- promise of void, the inner `Then` goes on with the value.
    pub then_on_itself :
        outcome (s.cell p) ≡ some (fulfilled v)
        → p < s.next
        → (s.cell p).readers ≡ 0
        → ((s' : Store S) × Runs s
              (Frame.run w (then_ true p (Fun.coroutine λ _. then_plain p g j) k) ∷ fs)
              s'
              (inner_call s p w g j k fs)
            × ((s'.cell p).readers ≡ 1)
            × (step s' (inner_call s p w g j k fs) ≡ none)
            × (step (unlocked p s') (inner_call s p w g j k fs)
                ≡ some (
                  unlocked p s',
                  Frame.run (some s.next) (then_now g (fulfilled v) j)
                      ∷ Frame.run w (Code.unlock_shared p (k s.next))
                      ∷ fs,
                )))
          × Runs s
              (Frame.run w (then_ false p (Fun.coroutine λ _. then_plain p g j) k) ∷ fs)
              (started s)
              (Frame.run (some s.next) (then_now g (fulfilled v) j) ∷ Frame.run w (k s.next) ∷ fs)
    unfolding then_ then_promise then_promise_now make_promise then_plain inside reading
    then_on_itself e l n = (
      (
        inside p s,
        next (step-on_done_or_create s w p _ _ k fs (fulfilled v) e (ground arith))
            (next (step-lock_shared s w p _ fs l) (next (step-start (reading p s) w _ _ fs) stop)),
        ground arith,
        step-blocked (inside p s) (some s.next) p _ _ j _ (fulfilled v) (inside-outcome s p l ∙ e)
            (inside-free s p l),
        step-on_done_or_create (unlocked p (inside p s)) (some s.next) p _ _ j
            (Frame.run w (Code.unlock_shared p (k s.next)) ∷ fs) (fulfilled v)
            (unlocked-outcome (inside p s) p ∙ inside-outcome s p l ∙ e) (ground arith),
      ),
      next (step-on_done_or_create s w p _ _ k fs (fulfilled v) e (ground arith)) (
          next (step-start s w _ _ fs) (
            next
              (step-on_done_or_create (started s) (some s.next) p _ _ j _ (fulfilled v)
                (started-same ∙ e) (ground arith))
              stop)),
    )
      where
        started-same : outcome ((started s).cell p) ≡ outcome (s.cell p)
        started-same = ground arith
