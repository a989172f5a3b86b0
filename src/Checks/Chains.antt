-- ===== src/Checks/Chains.antt =====
-- Chained promises.
use jspro_cpp.Prelude.{ℕ, ◌<◌, ◌≡◌, refl, true, false, none, some, List, [], ◌∷◌, arith}
use jspro_cpp.Runtime.Value.{num, user, Outcome, fulfilled, rejected}
use jspro_cpp.Runtime.Code.{Code}
use jspro_cpp.Runtime.Cell.{outcome}
use jspro_cpp.Runtime.Store.{Store, write}
use jspro_cpp.Machine.Exec.{Frame}
use jspro_cpp.Machine.Runs.{Runs}
use jspro_cpp.Machine.Settled.{claimed, reported}
use jspro_cpp.Machine.Returns.{made, made_done, pure-Returns}
use jspro_cpp.Machine.Delivery.{waiting, Pending}
use jspro_cpp.Combinators.Fun.{Fun, then_body}
use jspro_cpp.Combinators.Then.{then_}
use jspro_cpp.Combinators.Catch.{any, catch_, catch_body, handled_value}
use jspro_cpp.Combinators.Finally.{finally_, finally_body}
use jspro_cpp.Combinators.All.{all}
use jspro_cpp.Combinators.Spec.{called, handled, kept, replaced}
use jspro_cpp.Combinators.Chain.{listener, settled_later}
use jspro_cpp.Combinators.Laws.ThenLaws.{then_done, then-Pending}
use jspro_cpp.Combinators.Laws.CatchLaws.{catch_done, catch-Pending}
use jspro_cpp.Combinators.Laws.FinallyLaws.{finally_done, finally-Pending}
use jspro_cpp.Combinators.Laws.AllLaws.{all_done, gathered}
use jspro_cpp.Combinators.Race.{Racer}
use jspro_cpp.Combinators.Laws.AllLater.{suspended}
use jspro_cpp.Combinators.Laws.AllResumed.{all_later}
use jspro_cpp.Checks.Stores.{
  pending_store, done_cell, done_store, pending_store-Pending, seven, failed, answer, handle, fail,
  after,
}

then_done_example :
    Runs
      (done_store seven)
      (Frame.run none (then_ false 0 (Fun.plain answer) after) ∷ [])
      (made_done (fulfilled (num 8)) (done_store seven))
      (Frame.run none (after 1) ∷ [])
    × (outcome ((made_done (fulfilled (num 8)) (done_store seven)).cell 1)
        ≡ some (fulfilled (num 8)))
then_done_example =
    then_done (done_store seven) 0 seven false answer none after [] (done_store seven)
      (fulfilled (num 8)) refl (omega arith) refl
      (called (pure-Returns (done_store seven) (fulfilled (num 8))))

abbrev then_store : Store ℕ
then_store = settled_later pending_store 0 seven (listener 0 (then_body fail 1))

then-Pending_example :
    Runs pending_store
      (Frame.run none (then_ false 0 (Fun.plain fail) after) ∷ [])
      (waiting 0 (listener 0 (then_body fail 1)) (made pending_store))
      (Frame.run none (after 1) ∷ [])
    × Runs
        (claimed 0 (waiting 0 (listener 0 (then_body fail 1)) (made pending_store)))
        (Frame.settling 0 seven ∷ [])
        (reported (rejected (user 2)) 1 then_store)
        []
    × (outcome ((reported (rejected (user 2)) 1 then_store).cell 1) ≡ some (rejected (user 2)))
then-Pending_example =
    then-Pending pending_store 0 seven false fail none after [] [] then_store (rejected (user 2))
      pending_store-Pending (called (pure-Returns then_store (rejected (user 2))))
      (record { same = refl; grown = omega arith })

catch_done_example :
    Runs
      (done_store failed)
      (Frame.run none (catch_ false false any 0 (Fun.plain handle) after) ∷ [])
      (reported (fulfilled (num 9)) 1 (made (done_store failed)))
      (Frame.run none (after 1) ∷ [])
    × (outcome ((reported (fulfilled (num 9)) 1 (made (done_store failed))).cell 1)
        ≡ some (fulfilled (num 9)))
unfolding handled_value
catch_done_example =
    catch_done false false any handle (done_store failed) 0 failed none after []
      (made (done_store failed)) (fulfilled (num 9)) refl (omega arith) refl
      (handled (fulfilled (num 9)) refl
        (pure-Returns (made (done_store failed)) (fulfilled (num 9))))
      (record { same = refl; grown = omega arith })

abbrev caught : ℕ → Outcome → Code ℕ → Code ℕ
caught = catch_body false false any (Fun.plain handle)

abbrev catch_store : Store ℕ
catch_store = settled_later pending_store 0 failed (listener 0 (caught 1))

catch-Pending_example :
    Runs pending_store
      (Frame.run none (catch_ false false any 0 (Fun.plain handle) after) ∷ [])
      (waiting 0 (listener 0 (caught 1)) (made pending_store))
      (Frame.run none (after 1) ∷ [])
    × Runs
        (claimed 0 (waiting 0 (listener 0 (caught 1)) (made pending_store)))
        (Frame.settling 0 failed ∷ [])
        (reported (fulfilled (num 9)) 1 catch_store)
        []
    × (outcome ((reported (fulfilled (num 9)) 1 catch_store).cell 1) ≡ some (fulfilled (num 9)))
unfolding handled_value
catch-Pending_example =
    catch-Pending false false any handle pending_store 0 failed none after [] [] catch_store
      (fulfilled (num 9)) pending_store-Pending
      (handled (fulfilled (num 9)) refl (pure-Returns catch_store (fulfilled (num 9))))
      (record { same = refl; grown = omega arith })

finally_done_example :
    Runs
      (done_store failed)
      (Frame.run none (finally_ false 0 (Fun.plain answer) after) ∷ [])
      (reported failed 1 (made (done_store failed)))
      (Frame.run none (after 1) ∷ [])
    × (outcome ((reported failed 1 (made (done_store failed))).cell 1) ≡ some failed)
finally_done_example =
    finally_done answer (done_store failed) 0 failed none after [] (made (done_store failed)) failed
      refl (omega arith) refl (kept (pure-Returns (made (done_store failed)) (fulfilled (num 8))))
      (record { same = refl; grown = omega arith })

abbrev finished : ℕ → Outcome → Code ℕ → Code ℕ
finished = finally_body (Fun.plain fail)

abbrev finally_store : Store ℕ
finally_store = settled_later pending_store 0 seven (listener 0 (finished 1))

finally-Pending_example :
    Runs pending_store
      (Frame.run none (finally_ true 0 (Fun.plain fail) after) ∷ [])
      (waiting 0 (listener 0 (finished 1)) (made pending_store))
      (Frame.run none (after 1) ∷ [])
    × Runs
        (claimed 0 (waiting 0 (listener 0 (finished 1)) (made pending_store)))
        (Frame.settling 0 seven ∷ [])
        (reported (rejected (user 2)) 1 finally_store)
        []
    × (outcome ((reported (rejected (user 2)) 1 finally_store).cell 1) ≡ some (rejected (user 2)))
finally-Pending_example =
    finally-Pending fail pending_store 0 seven none after [] true [] finally_store
      (rejected (user 2)) pending_store-Pending
      (replaced (pure-Returns finally_store (rejected (user 2))))
      (record { same = refl; grown = omega arith })

-- Two promises that are done.
abbrev two_done : Store ℕ
two_done = write 1 (done_cell (fulfilled (num 8))) (made (done_store seven))

all_done_example :
    (s' : Store ℕ) × Runs two_done
      (Frame.run none (all false (0 ∷ 1 ∷ []) after) ∷ [])
      s'
      (Frame.run none (after 2) ∷ [])
    × (outcome (s'.cell 2) ≡ some (gathered false (seven ∷ fulfilled (num 8) ∷ [])))
    × ((p : ℕ) → p < 2 → s'.cell p ≡ two_done.cell p)
all_done_example =
    all_done two_done false (0 ∷ 1 ∷ []) (seven ∷ fulfilled (num 8) ∷ []) none after []
      (omega arith, refl, (omega arith, refl, tt))

-- The second promise of the pack is of void, and the arguments are evaluated from the last.
abbrev packed : List Racer
packed = record { is_void = false; promise = 0 } ∷ record { is_void = true; promise = 1 } ∷ []

-- A promise that is pending, and one that is done.
abbrev one_pending : Store ℕ
one_pending = write 1 (done_cell (fulfilled (num 8))) (made pending_store)

one_pending-Pending : Pending one_pending 0
one_pending-Pending = record {
  quiet = record { known = omega arith; open_ = refl; unread = refl; idle = refl };
  undone = refl;
  alone = refl;
}

all_later_example :
    Runs one_pending
      (Frame.run none (all false (0 ∷ 1 ∷ []) after) ∷ [])
      (suspended false [] one_pending 0 (1 ∷ []))
      (Frame.run none (after 2) ∷ [])
    × (outcome ((suspended false [] one_pending 0 (1 ∷ [])).cell 2) ≡ none)
    × ((s' : Store ℕ) × Runs
          (claimed 0 (suspended false [] one_pending 0 (1 ∷ [])))
          (Frame.settling 0 seven ∷ [])
          s'
          []
        × (outcome (s'.cell 2) ≡ some (gathered false (seven ∷ fulfilled (num 8) ∷ []))))
all_later_example =
    all_later false [] one_pending 0 (1 ∷ []) seven one_pending-Pending [] (fulfilled (num 8) ∷ [])
      none after [] [] tt (omega arith, refl, tt)
