-- ===== src/Checks/Races.antt =====
-- A race of two promises that are pending, at a concrete store.
use jspro_cpp.Prelude.{ℕ, ◌≡◌, refl, true, false, none, some, [], ◌∷◌, arith, List, All}
use mathlib.Core.List.Memᴰ.{head}
use jspro_cpp.Runtime.Value.{num, engaged, fulfilled}
use jspro_cpp.Runtime.Cell.{outcome}
use jspro_cpp.Runtime.Store.{Store}
use jspro_cpp.Machine.Exec.{Frame}
use jspro_cpp.Machine.Runs.{Runs}
use jspro_cpp.Machine.Settled.{claimed}
use jspro_cpp.Machine.Returns.{made}
use jspro_cpp.Machine.Delivery.{made-Pending}
use jspro_cpp.Combinators.Race.{Racer, race_value, all_void, has_void, race}
use jspro_cpp.Combinators.Laws.Tracked.{new-Waits}
use jspro_cpp.Combinators.Laws.RaceLater.{race_later}
use jspro_cpp.Checks.Stores.{pending_store, pending_store-Pending, seven, after}

abbrev number_racer : Racer
number_racer = record { is_void = false; promise = 0 }

abbrev void_racer : Racer
void_racer = record { is_void = true; promise = 1 }

abbrev racers : List Racer
racers = number_racer ∷ void_racer ∷ []

race_later_example :
    (s' : Store ℕ) × (last : ℕ) × Runs
      (made pending_store)
      (Frame.run none (race racers after) ∷ [])
      s'
      (Frame.run none (after last) ∷ [])
    × (outcome (s'.cell last) ≡ none)
    × ((s'' : Store ℕ) × Runs (claimed 0 s') (Frame.settling 0 seven ∷ []) s'' []
        × (outcome (s''.cell last) ≡ some (fulfilled (engaged (num 7))))
        × All (λ y. (s''.cell y.promise).awaiters ≡ []) racers)
unfolding race_value all_void has_void
race_later_example =
    race_later (made pending_store) racers number_racer seven none after [] []
      (made-Pending pending_store 0 pending_store-Pending, ((new-Waits pending_store).pending, tt))
      (((λ e. omega (arith, e)), tt), (tt, tt)) (head refl)
