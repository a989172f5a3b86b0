-- ===== src/Memcheck/Tally.antt =====
-- The counter counts the objects that were made and not destroyed.
-- include/promise/core/Memcheck.h, src/Memcheck.cpp
use jspro_cpp.Prelude.{ℕ, suc, ◌<◌, ◌≡◌, refl, true, false, List, [], ◌∷◌, arith, length, ◌==◌}
use Prim.Native.Nat.{◌%◌}
use jspro_cpp.Memcheck.{Refcount, word, mem, emplace, erase, initial, track, untrack, check}

-- The program makes and destroys objects: an object is made at an address where none lives, and
-- only a living one is destroyed. The list has the living objects, the newest first.
pub data History : Refcount → List ℕ → Type 0 where
  start : History initial []
  made :
      {r : Refcount} {live : List ℕ} (p : ℕ)
      → History r live
      → mem p live ≡ false
      → History (track p r) (p ∷ live)
  gone :
      {r : Refcount} {live : List ℕ} (p : ℕ)
      → History r live
      → mem p live ≡ true
      → History (untrack p r) (erase p live)

length-erase : (p : ℕ) (qs : List ℕ) → mem p qs ≡ true → suc (length (erase p qs)) ≡ length qs
unfolding erase
length-erase p [] h = ground arith
length-erase p (q ∷ qs) h = ground (arith, length-erase p qs)

tracked-ptrs : {r : Refcount} {live : List ℕ} → History r live → r.ptrs ≡ live
unfolding initial track untrack emplace
tracked-ptrs start = refl
tracked-ptrs (made p h n) = rw (tracked-ptrs h, n) refl
tracked-ptrs (gone p h n) = rw (tracked-ptrs h) refl

tracked-counter : {r : Refcount} {live : List ℕ} → History r live → r.counter ≡ length live % word
unfolding initial track untrack
tracked-counter start = refl
tracked-counter (made p h n) = omega (arith, tracked-counter h)
tracked-counter (gone {live = live} p h n) = omega (arith, tracked-counter h, length-erase p live n)

counter-live :
    {r : Refcount} {live : List ℕ} → History r live → length live < word → r.counter ≡ length live
counter-live h l = omega (arith, tracked-counter h)

suc-nonzero : (n : ℕ) → (suc n == 0) ≡ false
suc-nonzero n = ground arith

check-live :
    (r : Refcount) (live : List ℕ)
    → r.counter ≡ length live
    → r.ptrs ≡ live
    → check r ≡ (length live == 0, live)
unfolding check
check-live r [] c p = rw c refl
check-live r (q ∷ live) c p = rw (c, p, suc-nonzero (length live)) refl

-- After every history of objects, of which fewer than 2 ^ 64 live: the counter is the number of
-- living objects, the set has exactly those, and `Check` passes if and only if none lives; else it
-- prints the addresses of all of them.
pub leaks_found :
    (r : Refcount) (live : List ℕ)
    → History r live
    → length live < word
    → (r.counter ≡ length live) × (r.ptrs ≡ live) × (check r ≡ (length live == 0, live))
leaks_found r live h l =
    (counter-live h l, tracked-ptrs h, check-live r live (counter-live h l) (tracked-ptrs h))
