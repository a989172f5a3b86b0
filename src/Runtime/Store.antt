-- ===== src/Runtime/Store.antt =====
-- All promises of a program, by number, and its other shared state.
use jspro_cpp.Prelude.{ℕ, suc, Bool, false, ◌&&◌, ltb, ◌==◌, update}
use jspro_cpp.Runtime.Cell.{Cell, blank}

-- A number from `next` on names no promise.
pub record Store (S : Type 0) : Type 0 where
  pub next : ℕ
  pub cell : ℕ → Cell S
  pub shared : S

module _ {S : Type 0} where
  abbrev pub empty : S → Store S
  empty v = record { next = 0; cell = λ _. blank false false; shared = v }

  abbrev pub write : ℕ → Cell S → Store S → Store S
  write p c s = record s { cell = update s.cell p c }

  abbrev pub alloc : Cell S → Store S → Store S
  alloc c s = record s { next = suc s.next; cell = update s.cell s.next c }

  -- A handle is not null, which every operation asserts.
  abbrev pub valid : Store S → ℕ → Bool
  valid s p = ltb p s.next

  -- An exclusive lock can be taken: nobody keeps a shared one.
  abbrev pub free : Store S → ℕ → Bool
  free s p = ltb p s.next && ((s.cell p).readers == 0)
