-- ===== src/Checks/Async.antt =====
-- Coroutines, promise-returning continuations and races.
use jspro_cpp.Prelude.{ℕ, ◌≡◌, ◌≢◌, refl, true, false, none, some, List, [], ◌∷◌, arith}
use jspro_cpp.Runtime.Value.{num, engaged, void, Value, fulfilled}
use jspro_cpp.Runtime.Code.{Code}
use jspro_cpp.Runtime.Cell.{outcome}
use jspro_cpp.Runtime.Store.{Store, empty}
use jspro_cpp.Machine.Exec.{Frame}
use jspro_cpp.Machine.Threads.{step}
use jspro_cpp.Machine.Runs.{Runs}
use jspro_cpp.Machine.Settled.{claimed}
use jspro_cpp.Machine.Returns.{made, pure}
use jspro_cpp.Machine.Delivery.{waiting}
use jspro_cpp.Machine.Unsettled.{started, started-Running}
use jspro_cpp.Machine.Coroutine.{coroutine_end}
use jspro_cpp.Combinators.Fun.{Fun, then_plain, then_now}
use jspro_cpp.Combinators.Then.{then_}
use jspro_cpp.Combinators.Chain.{settled_later}
use jspro_cpp.Combinators.Race.{race, race_value, all_void, has_void}
use jspro_cpp.Combinators.Fun.{forward, resolving, done_void}
use jspro_cpp.Combinators.Laws.Tracked.{Waits}
use jspro_cpp.Combinators.Laws.ForwardLaws.{forward_done}
use jspro_cpp.Combinators.Laws.Spared.{Spared}
use jspro_cpp.Combinators.Then.{then_promise}
use jspro_cpp.Combinators.Laws.AsyncLaws.{started_by, continuation, then_promise-Pending}
use jspro_cpp.Combinators.Laws.Starting.{
  returned, coroutine-Makes, returned-Usable, returned-Waits, later-Waits,
}
use jspro_cpp.Combinators.Laws.RaceLaws.{race_done}
use jspro_cpp.Combinators.Laws.HeldLock.{then_on_itself, inner_call, unlocked}
use jspro_cpp.Checks.Stores.{pending_store, done_store, pending_store-Pending, seven, answer, after}

abbrev fresh_store : Store ℕ
fresh_store = started (empty 0)

coroutine_end_example :
    (s' : Store ℕ) × Runs fresh_store
      (Frame.run (some 0) (pure seven) ∷ [])
      s'
      (Frame.loop 0 [] ∷ [])
    × (outcome (s'.cell 0) ≡ some seven)
    × ((s'.cell 0).running ≡ false)
    × ((s'.cell 0).awaiters ≡ [])
    × ((p : ℕ) → 0 ≢ p → s'.cell p ≡ fresh_store.cell p)
coroutine_end_example = coroutine_end fresh_store 0 seven (started-Running (empty 0)) refl []

abbrev inner_frames : List (Frame ℕ)
inner_frames = inner_call (done_store (fulfilled void)) 0 none answer after after []

then_on_itself_example :
    ((s' : Store ℕ) × Runs
        (done_store (fulfilled void))
        (Frame.run none (then_ true 0 (Fun.coroutine λ _. then_plain 0 answer after) after) ∷ [])
        s'
        inner_frames
      × ((s'.cell 0).readers ≡ 1)
      × (step s' inner_frames ≡ none)
      × (step (unlocked 0 s') inner_frames
          ≡ some (
            unlocked 0 s',
            Frame.run (some 1) (then_now answer (fulfilled void) after)
                ∷ Frame.run none (Code.unlock_shared 0 (after 1))
                ∷ [],
          )))
    × Runs
        (done_store (fulfilled void))
        (Frame.run none (then_ false 0 (Fun.coroutine λ _. then_plain 0 answer after) after) ∷ [])
        (started (done_store (fulfilled void)))
        (Frame.run (some 1) (then_now answer (fulfilled void) after)
          ∷ Frame.run none (after 1)
          ∷ [])
then_on_itself_example =
    then_on_itself (done_store (fulfilled void)) 0 void none answer after after [] refl
      (omega arith) refl

race_done_example :
    (s' : Store ℕ) × Runs
      (made (done_store seven))
      (Frame.run none (
          race
            (record { is_void = false; promise = 0 } ∷ record { is_void = true; promise = 1 } ∷ [])
            after)
        ∷ [])
      s'
      (Frame.run none (after 2) ∷ [])
    × (outcome (s'.cell 2) ≡ some (fulfilled (engaged (num 7))))
unfolding race_value all_void has_void
race_done_example =
    race_done (made (done_store seven)) (record { is_void = false; promise = 0 })
      (record { is_void = true; promise = 1 } ∷ []) seven none after [] refl
      (
        record { known = omega arith; unread = refl },
        (record { known = omega arith; unread = refl }, tt),
      )

abbrev forward_store : Store ℕ
forward_store = made (done_store seven)

forward_store-Waits : Waits forward_store 1
forward_store-Waits = record {
  pending = record {
    quiet = record { known = omega arith; open_ = refl; unread = refl; idle = refl };
    undone = refl;
    alone = refl;
  };
  unused = refl;
}

forward_done_example :
    (s' : Store ℕ) × Runs forward_store
      (Frame.run none (forward 0 (resolving 1) 1 done_void) ∷ [])
      s'
      (Frame.run none done_void ∷ [])
    × (outcome (s'.cell 1) ≡ some seven)
    × Spared 2 0 1 forward_store s'
forward_done_example =
    forward_done forward_store none 0 1 seven done_void []
      (record { known = omega arith; done = refl; unread = refl }) forward_store-Waits

-- A coroutine that returns at once, chained on a pending promise.
abbrev async_answer : Fun ℕ Value
async_answer = Fun.coroutine λ _. pure (fulfilled (num 8))

abbrev async_store : Store ℕ
async_store = settled_later pending_store 0 seven (continuation 0 async_answer 1)

then_promise-Pending_example :
    Runs pending_store
      (Frame.run none (then_promise false 0 async_answer after) ∷ [])
      (waiting 0 (continuation 0 async_answer 1) (made pending_store))
      (Frame.run none (after 1) ∷ [])
    × (s' : Store ℕ) × Runs
        (claimed 0 (waiting 0 (continuation 0 async_answer 1) (made pending_store)))
        (Frame.settling 0 seven ∷ [])
        s'
        []
    × (outcome (s'.cell 1) ≡ some (fulfilled (num 8)))
then_promise-Pending_example =
    then_promise-Pending pending_store false 0 async_answer seven (fulfilled (num 8))
      (returned (fulfilled (num 8)) async_store) async_store.next none after [] []
      pending_store-Pending (started_by (coroutine-Makes async_store (fulfilled (num 8)) (num 7)))
      (returned-Usable async_store (fulfilled (num 8)))
      (returned-Waits async_store (fulfilled (num 8)) 1
        (later-Waits pending_store 0 seven (continuation 0 async_answer 1) pending_store-Pending))
