-- ===== src/Runtime/Cell.antt =====
-- The details of one promise, and the critical sections on them.
-- include/promise/details/Promise.inl, Handle.inl, Resolver.inl
use mathlib.Core.Option
use jspro_cpp.Prelude.{
  ℕ, suc, Bool, true, false, not, ◌||◌, ◌&&◌, ltb, Option, none, some, List, [], ◌∷◌, ◌++◌, ◌==◌,
  if◌then◌else◌, is_some,
}
use jspro_cpp.Runtime.Value.{Value, Exn, Outcome}
use jspro_cpp.Runtime.Code.{Code, Awaiter}

-- `details::Promise` with its `Resolver` (value, exception, resolved) and its `Reject` handle
-- (rejected). `running` is a non-null `handle_`; `readers` counts the shared locks that are held
-- across other operations.
pub record Cell (S : Type 0) : Type 0 where
  pub with_resolver : Bool
  pub running : Bool
  pub value : Option Value
  pub exception : Option Exn
  pub resolved : Bool
  pub rejected : Bool
  pub awaiters : List (Awaiter S)
  pub use_count : ℕ
  pub self_owned : Bool
  pub readers : ℕ
  -- how often `cv_.notify_all()` was called
  pub notified : ℕ

-- What a thread blocks for in `WaitDone`, and in `WaitAwaited` from a count on.
pub data Condition : Type 0 where
  done : Condition
  used : ℕ → Condition

abbrev pub settled_as : Option Exn → Option Value → Option Outcome
settled_as (some e) v = some (Outcome.rejected e)
settled_as none v = Option.map Outcome.fulfilled v

module _ {S : Type 0} where
  abbrev pub blank : Bool → Bool → Cell S
  blank with_resolver running = record {
    with_resolver = with_resolver;
    running = running;
    value = none;
    exception = none;
    resolved = false;
    rejected = false;
    awaiters = [];
    use_count = 0;
    self_owned = false;
    readers = 0;
    notified = 0;
  }

  abbrev pub is_done : Cell S → Bool
  is_done c = is_some c.value || is_some c.exception

  -- The predicates of `cv_.wait`.
  abbrev pub holds : Condition → Cell S → Bool
  holds Condition.done c = is_done c && not c.running
  holds (Condition.used n) c = ltb n c.use_count

  -- `await_resume`: the exception first, then the value.
  abbrev pub outcome : Cell S → Option Outcome
  outcome c = settled_as c.exception c.value

  abbrev pub store_outcome : Outcome → Cell S → Cell S
  store_outcome (Outcome.fulfilled v) c = record c { value = some v }
  store_outcome (Outcome.rejected e) c = record c { exception = some e }

  -- Once no coroutine runs the promise: `notify_all`, the awaiters that the caller has to run, and
  -- the cell without them.
  unfoldable pub on_resolved : Cell S → Cell S × List (Awaiter S)
  on_resolved c =
      if c.running
      then (c, [])
      else (record c { awaiters = []; self_owned = false; notified = suc c.notified }, c.awaiters)

  -- The locked part of `Resolver::Resolve` and `Resolver::Reject`.
  unfoldable pub settle : Outcome → Cell S → Cell S × List (Awaiter S)
  settle o c = on_resolved (store_outcome o c)

  -- The scope exit of `final_suspend`.
  unfoldable pub release_handle : Cell S → Cell S × List (Awaiter S)
  release_handle c =
      let c' : Cell S = record c { running = false; notified = suc c.notified } in
      if is_done c then on_resolved c' else (c', [])

  -- `Await` of a coroutine, and of a function, which returns the id.
  unfoldable pub await_coroutine : Option ℕ → (Outcome → Code S) → Cell S → Cell S
  await_coroutine owner k c = record c {
    use_count = suc c.use_count;
    notified = suc c.notified;
    awaiters = c.awaiters ++ (Awaiter.coroutine owner k ∷ []);
  }

  unfoldable pub await_function : Code S → Cell S → Cell S × ℕ
  await_function f c = (
    record c {
      use_count = suc c.use_count;
      notified = suc c.notified;
      awaiters = c.awaiters ++ (Awaiter.function (suc c.use_count) f ∷ []);
    },
    suc c.use_count,
  )

  abbrev pub has_id : ℕ → Awaiter S → Bool
  has_id id (Awaiter.coroutine owner k) = false
  has_id id (Awaiter.function i f) = i == id

  -- `find_if` and `erase`: the first function with the id goes.
  unfoldable pub remove_id : ℕ → List (Awaiter S) → List (Awaiter S)
  remove_id id [] = []
  remove_id id (a ∷ as') = if has_id id a then as' else a ∷ remove_id id as'

  unfoldable pub some_id : ℕ → List (Awaiter S) → Bool
  some_id id [] = false
  some_id id (a ∷ as') = has_id id a || some_id id as'

  unfoldable pub un_await : ℕ → Cell S → Cell S × Bool
  un_await id c = (record c { awaiters = remove_id id c.awaiters }, some_id id c.awaiters)

  unfoldable pub detach : Cell S → Cell S
  detach c = if is_done c then c else record c { self_owned = true }
