-- ===== src/Machine/Invariant.antt =====
-- The invariant of a program of several threads: it holds at the start and after every turn, so
-- after every schedule.
use jspro_cpp.Prelude.{
  ℕ, ◌+◌, ◌≤◌, ◌≡◌, refl, false, none, some, List, [], ◌∷◌, arith, to_ℕ, All, map, length,
}
use jspro_cpp.Runtime.Value.{Outcome}
use jspro_cpp.Runtime.Code.{Code}
use jspro_cpp.Runtime.Cell.{is_done, outcome}
use jspro_cpp.Runtime.CellInvariant.{blank-CellOk}
use jspro_cpp.Runtime.Wakes.{Wakes, same-Wakes, Wakes-trans}
use jspro_cpp.Runtime.Store.{Store, empty}
use jspro_cpp.Machine.Moved.{total, turn_at-Moved}
use jspro_cpp.Machine.Exec.{Frame}
use jspro_cpp.Machine.Threads.{Machine, turn, schedule}
use jspro_cpp.Machine.Stepped.{FrameOk, StoreOk, Grows}

module _ {S : Type 0} where
  pub record Inv (m : Machine S) : Type 0 where
    pub store : StoreOk m.store
    -- a promise is `resolved_` once: its outcome is stored, or one frame is about to store it
    pub balance :
        (q : ℕ)
        → total q m.threads + to_ℕ (is_done (m.store.cell q)) ≡ to_ℕ (m.store.cell q).resolved
    pub frames : All (All (FrameOk m.store)) m.threads

  -- A turn of any thread keeps the invariant.
  turn-Inv : (i : ℕ) (m : Machine S) → Inv m → Inv (turn i m)
  unfolding turn
  turn-Inv i m v =
      let (moved, frames) =
        turn_at-Moved i m.store m.threads v.store v.frames (λ q. omega (arith, v.balance q)) in
      record {
        store = moved.store;
        balance = λ q. omega (arith, moved.balance q, v.balance q);
        frames = frames;
      }

  -- A turn of any thread changes no outcome.
  turn-stable :
      (i : ℕ) (m : Machine S) (p : ℕ) (o : Outcome)
      → Inv m
      → outcome (m.store.cell p) ≡ some o
      → outcome ((turn i m).store.cell p) ≡ some o
  unfolding turn
  turn-stable i m p o v e =
      (turn_at-Moved i m.store m.threads v.store v.frames
          (λ q. omega (arith, v.balance q))).0.stable
        p o e

  -- What a turn adds to the store.
  turn-Grows : (i : ℕ) (m : Machine S) → Inv m → Grows m.store (turn i m).store
  unfolding turn
  turn-Grows i m v =
      (turn_at-Moved i m.store m.threads v.store v.frames (λ q. omega (arith, v.balance q))).0.grows

  pub schedule-Inv : (is : List ℕ) (m : Machine S) → Inv m → Inv (schedule is m)
  unfolding schedule
  schedule-Inv [] m v = v
  schedule-Inv (i ∷ is) m v = schedule-Inv is (turn i m) (turn-Inv i m v)

  -- An outcome, once stored, is the outcome after every schedule.
  pub schedule-stable :
      (is : List ℕ) (m : Machine S) (p : ℕ) (o : Outcome)
      → Inv m
      → outcome (m.store.cell p) ≡ some o
      → outcome ((schedule is m).store.cell p) ≡ some o
  unfolding schedule
  schedule-stable [] m p o v e = e
  schedule-stable (i ∷ is) m p o v e =
      schedule-stable is (turn i m) p o (turn-Inv i m v) (turn-stable i m p o v e)

  -- A promise counts at most one awaiter for each turn.
  pub schedule-used :
      (is : List ℕ) (m : Machine S) (p : ℕ)
      → Inv m
      → ((schedule is m).store.cell p).use_count ≤ length is + (m.store.cell p).use_count
  unfolding schedule
  schedule-used [] m p v = omega arith
  schedule-used (i ∷ is) m p v =
      omega (arith, schedule-used is (turn i m) p (turn-Inv i m v), (turn-Grows i m v).used p)

  -- Over a schedule no condition comes to hold unheard, and one that holds stays so.
  pub schedule-Wakes :
      (is : List ℕ) (m : Machine S) (p : ℕ)
      → Inv m
      → Wakes (m.store.cell p) ((schedule is m).store.cell p)
  unfolding schedule
  schedule-Wakes [] m p v = same-Wakes (m.store.cell p)
  schedule-Wakes (i ∷ is) m p v =
      Wakes-trans _ _ _ ((turn-Grows i m v).wakes p)
        (schedule-Wakes is (turn i m) p (turn-Inv i m v))

  -- Threads that are about to run code, on a store with no promise.
  abbrev pub boot : S → List (Code S) → Machine S
  boot v cs = record { store = empty v; threads = map (λ c. Frame.run none c ∷ []) cs }

  boot-total : (q : ℕ) (cs : List (Code S)) → total q (map (λ c. Frame.run none c ∷ []) cs) ≡ 0
  boot-total q [] = refl
  boot-total q (c ∷ cs) = omega (arith, boot-total q cs)

  boot-frames :
      (s : Store S) (cs : List (Code S))
      → All (All (FrameOk s)) (map (λ c. Frame.run none c ∷ []) cs)
  boot-frames s [] = tt
  boot-frames s (c ∷ cs) = ((tt, tt), boot-frames s cs)

  pub boot-Inv : (v : S) (cs : List (Code S)) → Inv (boot v cs)
  boot-Inv v cs = record {
    store = record { cells = λ p. blank-CellOk false false; fresh = λ p l. refl };
    balance = λ q. omega (arith, boot-total q cs);
    frames = boot-frames (empty v) cs;
  }
