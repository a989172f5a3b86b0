-- ===== src/Memcheck.antt =====
-- The counter of live promises that a build with PROMISE_MEMCHECK keeps.
-- include/promise/core/Memcheck.h, src/Memcheck.cpp
pub mod Tally
use jspro_cpp.Prelude.{ℕ, zero, suc, ◌+◌, Bool, true, false, List, [], ◌∷◌, ◌==◌, if◌then◌else◌}
use Prim.Native.Nat.{◌%◌}

-- `counter`, an atomic 64-bit word, and the set `ptrs`, as a list without repetitions.
pub record Refcount : Type 0 where
  pub counter : ℕ
  pub ptrs : List ℕ

abbrev pub word : ℕ
word = 18446744073709551616

abbrev pub mem : ℕ → List ℕ → Bool
mem p [] = false
mem p (q ∷ qs) = if p == q then true else mem p qs

-- `emplace` and `erase` of the set.
unfoldable pub emplace : ℕ → List ℕ → List ℕ
emplace p qs = if mem p qs then qs else p ∷ qs

unfoldable pub erase : ℕ → List ℕ → List ℕ
erase p [] = []
erase p (q ∷ qs) = if p == q then qs else q ∷ erase p qs

unfoldable pub initial : Refcount
initial = record { counter = 0; ptrs = [] }

-- The constructor and the destructor of `Refcount`.
unfoldable pub track : ℕ → Refcount → Refcount
track p r = record { counter = (r.counter + 1) % word; ptrs = emplace p r.ptrs }

unfoldable pub untrack : ℕ → Refcount → Refcount
untrack p r = record { counter = (r.counter + 18446744073709551615) % word; ptrs = erase p r.ptrs }

-- Whether the assertion of `Check` holds, and the addresses that it prints if not.
unfoldable pub check : Refcount → Bool × List ℕ
check r = if r.counter == 0 then (true, []) else (false, r.ptrs)
