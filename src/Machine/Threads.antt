-- ===== src/Machine/Threads.antt =====
-- Stacks, threads and schedules.
use mathlib.Core.Option
use jspro_cpp.Prelude.{ℕ, zero, suc, Option, none, some, List, [], ◌∷◌, ◌++◌}
use jspro_cpp.Runtime.Store.{Store}
use jspro_cpp.Machine.Exec.{Frame, exec}

module _ {S : Type 0} where
  -- One step of a thread; `none` if it has ended or cannot go on.
  unfoldable pub step : Store S → List (Frame S) → Option (Store S × List (Frame S))
  step s [] = none
  step s (f ∷ fs) = Option.map (λ r. (r.0, r.1 ++ fs)) (exec f s)

  abbrev pub settled_step :
      Store S → List (Frame S) → Option (Store S × List (Frame S)) → Store S × List (Frame S)
  settled_step s t none = (s, t)
  settled_step s t (some r) = r

  -- A thread left to itself for `n` steps.
  unfoldable pub run : ℕ → Store S → List (Frame S) → Store S × List (Frame S)
  run zero s t = (s, t)
  run (suc n) s t = let r = settled_step s t (step s t) in run n r.0 r.1

pub record Machine (S : Type 0) : Type 0 where
  pub store : Store S
  pub threads : List (List (Frame S))

module _ {S : Type 0} where
  -- One turn of the thread at an index; it passes if the thread cannot go on.
  unfoldable pub turn_at : ℕ → Store S → List (List (Frame S)) → Machine S
  turn_at i s [] = record { store = s; threads = [] }
  turn_at zero s (t ∷ ts) =
      let r = settled_step s t (step s t) in record { store = r.0; threads = r.1 ∷ ts }
  turn_at (suc i) s (t ∷ ts) =
      let m = turn_at i s ts in record { store = m.store; threads = t ∷ m.threads }

  unfoldable pub turn : ℕ → Machine S → Machine S
  turn i m = turn_at i m.store m.threads

  -- The turns in the order that a scheduler gives them.
  unfoldable pub schedule : List ℕ → Machine S → Machine S
  schedule [] m = m
  schedule (i ∷ is) m = schedule is (turn i m)
