-- ===== src/Checks/Leaks.antt =====
-- A program that makes two objects and destroys the first.
use jspro_cpp.Prelude.{◌≡◌, refl, false, [], ◌∷◌, arith}
use jspro_cpp.Memcheck.{Refcount, initial, track, untrack, check, erase}
use jspro_cpp.Memcheck.Tally.{History, start, made, gone, leaks_found}

abbrev one_left : Refcount
one_left = untrack 100 (track 200 (track 100 initial))

one_left-History : History one_left (200 ∷ [])
unfolding erase
one_left-History = gone 100 (made 200 (made 100 start refl) refl) refl

leaks_found_example :
    (one_left.counter ≡ 1) × (one_left.ptrs ≡ 200 ∷ []) × (check one_left ≡ (false, 200 ∷ []))
leaks_found_example = leaks_found one_left (200 ∷ []) one_left-History (omega arith)
