-- ===== src/Machine/Safety.antt =====
-- What holds of every promise after every schedule of every program that starts with no promise.
use jspro_cpp.Prelude.{
  ℕ, ◌+◌, ◌<◌, ◌≡◌, ◌⊎◌, true, false, none, some, List, [], ◌∷◌, ◌++◌, arith, to_ℕ, ==_refl,
  append-nil,
}
use jspro_cpp.Runtime.Value.{Outcome, fulfilled, rejected}
use jspro_cpp.Runtime.Code.{Code}
use jspro_cpp.Runtime.Cell.{
  Cell, is_done, outcome, settle, release_handle, on_resolved, await_function, un_await, some_id,
}
use jspro_cpp.Runtime.CellInvariant.{CellOk, some_id-remove, await-un_await}
use jspro_cpp.Machine.Exec.{Frame}
use jspro_cpp.Machine.Threads.{Machine, schedule}
use jspro_cpp.Machine.Moved.{total}
use jspro_cpp.Machine.Invariant.{Inv, boot, boot-Inv, schedule-Inv, schedule-stable}

module _ {S : Type 0} where
  abbrev pub reached : S → List (Code S) → List ℕ → Machine S
  reached v cs is = schedule is (boot v cs)

  pub reached-Inv : (v : S) (cs : List (Code S)) (is : List ℕ) → Inv (reached v cs is)
  reached-Inv v cs is = schedule-Inv is (boot v cs) (boot-Inv v cs)

  -- For all code `cs` of the threads, all schedules `is` and `js` and every promise `p`: if `p` is
  -- done with the outcome `o` after `is`, it is done with the same outcome after `is` and then `js`.
  pub settled_once :
      (v : S) (cs : List (Code S)) (is js : List ℕ) (p : ℕ) (o : Outcome)
      → outcome ((reached v cs is).store.cell p) ≡ some o
      → outcome ((schedule js (reached v cs is)).store.cell p) ≡ some o
  settled_once v cs is js p o e = schedule-stable js (reached v cs is) p o (reached-Inv v cs is) e

  -- For all code `cs` and every schedule `is`: a promise is `resolved_` if and only if either its
  -- outcome is stored or exactly one frame of all threads is about to store it. So of the calls of
  -- `Resolve` and `Reject` on it exactly one stores an outcome.
  pub one_winner :
      (v : S) (cs : List (Code S)) (is : List ℕ) (p : ℕ)
      → total p (reached v cs is).threads + to_ℕ (is_done ((reached v cs is).store.cell p))
        ≡ to_ℕ ((reached v cs is).store.cell p).resolved
  one_winner v cs is p = (reached-Inv v cs is).balance p

  token_counted :
      (p : ℕ) (o : Outcome) (fs : List (Frame S)) (xs ys : List (List (Frame S)))
      → 0 < total p (xs ++ ((Frame.settling p o ∷ fs) ∷ ys))
  token_counted p o fs [] ys = ground (arith, ==_refl p)
  token_counted p o fs (t ∷ xs) ys = omega (arith, token_counted p o fs xs ys)

  -- For all code `cs` and every schedule `is`: when a thread, with others before and after it, has
  -- come to the locked part of `Resolver::Resolve` or `Resolver::Reject` on `p`, the promise has
  -- neither a value nor an exception. So the assertion there holds.
  pub settling_undone :
      (v : S) (cs : List (Code S)) (is : List ℕ) (p : ℕ) (o : Outcome) (fs : List (Frame S))
      (xs ys : List (List (Frame S)))
      → (reached v cs is).threads ≡ xs ++ ((Frame.settling p o ∷ fs) ∷ ys)
      → is_done ((reached v cs is).store.cell p) ≡ false
  settling_undone v cs is p o fs xs ys e =
      ground (arith, rw (e) at (one_winner v cs is p), token_counted p o fs xs ys)

  -- For all code `cs` and every schedule `is`: no promise has both a value and an exception.
  pub one_outcome :
      (v : S) (cs : List (Code S)) (is : List ℕ) (p : ℕ)
      → (((reached v cs is).store.cell p).value ≡ none)
        ⊎ (((reached v cs is).store.cell p).exception ≡ none)
  one_outcome v cs is p = ((reached-Inv v cs is).store.cells p).one

  -- For all code `cs` and every schedule `is`: when a promise is done and its coroutine has ended
  -- or there is none, no awaiter is left on it and it does not keep itself alive.
  pub no_awaiter_lost :
      (v : S) (cs : List (Code S)) (is : List ℕ) (p : ℕ)
      → is_done ((reached v cs is).store.cell p) ≡ true
      → ((reached v cs is).store.cell p).running ≡ false
      → (((reached v cs is).store.cell p).awaiters ≡ [])
        × (((reached v cs is).store.cell p).self_owned ≡ false)
  no_awaiter_lost v cs is p d n = ((reached-Inv v cs is).store.cells p).woken d n

  un_await_once : (c : Cell S) (id : ℕ) → CellOk c → (un_await id (un_await id c).0).1 ≡ false
  unfolding un_await
  un_await_once c id h = some_id-remove id 0 c.use_count c.awaiters h.ids

  -- For all code `cs` and every schedule `is`: the id that `Await` returns for a function on `p` is
  -- the id of no other function that waits there; `UnAwait` with it finds the function, takes it
  -- away, and leaves the awaiters as they were before `Await`. A second `UnAwait` on `p` with any
  -- id returns false.
  pub await_undone :
      (v : S) (cs : List (Code S)) (is : List ℕ) (p : ℕ) (f : Code S)
      → let c = (reached v cs is).store.cell p in
        let (c', id) = await_function f c in
        (some_id id c.awaiters ≡ false)
        × ((un_await id c').1 ≡ true)
        × ((un_await id c').0.awaiters ≡ c.awaiters)
        × ((j : ℕ) → (un_await j (un_await j c).0).1 ≡ false)
  await_undone v cs is p f =
      let ok = (reached-Inv v cs is).store.cells p in
      let (new, found, back) = await-un_await _ f ok in
      (new, found, back, λ j. un_await_once _ j ok)

  -- The details without the count of `notify_all`.
  abbrev pub unheard : Cell S → Cell S
  unheard c = record c { notified = 0 }

  -- On a promise that is not done, the settling and the end of its coroutine may come in either
  -- order: the details that are left are the same, but for how often the promise has notified, and
  -- it has notified in either; the awaiters that the two hand over to be run, one after the other,
  -- are the same too, and are all the awaiters that waited.
  pub settle_release :
      (o : Outcome) (c : Cell S)
      → is_done c ≡ false
      → let (a, a₁) = settle o c in
        let (a', a₂) = release_handle a in
        let (b, b₁) = release_handle c in
        let (b', b₂) = settle o b in
        (unheard a' ≡ unheard b')
        × (c.notified < a'.notified)
        × (c.notified < b'.notified)
        × (a₁ ++ a₂ ≡ b₁ ++ b₂)
        × (a₁ ++ a₂ ≡ c.awaiters)
  unfolding settle release_handle on_resolved
  settle_release (fulfilled v) c e = ground (arith, append-nil c.awaiters)
  settle_release (rejected x) c e = ground (arith, append-nil c.awaiters)
