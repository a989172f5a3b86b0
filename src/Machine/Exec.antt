-- ===== src/Machine/Exec.antt =====
-- One step of one frame of a thread's stack: what it does to the store, and the frames that take
-- its place. `none` is a frame that cannot go on: it waits for a lock or to be notified, has failed
-- an assertion, or was left by an exception that nothing catches.
-- include/promise/details/Promise.inl, Handle.inl, Resolver.inl
use jspro_cpp.Prelude.{
  ℕ, suc, Bool, true, false, not, ◌&&◌, Option, none, some, List, [], ◌∷◌, length, ◌==◌, ◌-◌,
  if◌then◌else◌,
}
use jspro_cpp.Runtime.Value.{Value, Exn, Outcome}
use jspro_cpp.Runtime.Code.{Code, Awaiter}
use jspro_cpp.Runtime.Cell.{
  Cell, Condition, blank, holds, outcome, settle, release_handle, await_coroutine, await_function,
}
use jspro_cpp.Runtime.Cell
use jspro_cpp.Runtime.Store.{Store, write, alloc, valid, free}

pub data Frame (S : Type 0) : Type 0 where
  -- code, and the promise whose coroutine runs it
  run : Option ℕ → Code S → Frame S
  -- a coroutine that was resumed: `await_resume` on the promise, then its code
  resume : Option ℕ → ℕ → (Outcome → Code S) → Frame S
  -- a call of `Resolver::Resolve` or `Resolver::Reject`, and its locked part once it is the first
  attempt : ℕ → Outcome → Frame S
  settling : ℕ → Outcome → Frame S
  -- the loop of `OnResolved` over the awaiters that are left
  loop : ℕ → List (Awaiter S) → Frame S
  -- the scope exit of `final_suspend`
  finish : ℕ → Frame S
  -- a thread in `cv_.wait` on a promise, with how often the promise had notified when it fell
  -- asleep, and its code once the condition holds
  asleep : Option ℕ → ℕ → Condition → ℕ → Code S → Frame S

-- The store after a step and the frames that take the frame's place.
abbrev pub Result : Type 0 → Type 0
Result S = Option (Store S × List (Frame S))

module _ {S : Type 0} where
  abbrev pub guard : Bool → Store S × List (Frame S) → Result S
  guard true r = some r
  guard false r = none

  -- `resolved_.exchange(true)`
  abbrev pub exchange :
      ℕ → Outcome → List (Frame S) → List (Frame S) → Store S → Store S × List (Frame S)
  exchange p o won lost s =
      if (s.cell p).resolved
      then (s, lost)
      else (write p (record (s.cell p) { resolved = true }) s, Frame.settling p o ∷ won)

  -- `unhandled_exception`, and `final_suspend` with the delayed return.
  unfoldable pub final_suspend : ℕ → Outcome → Store S → Store S × List (Frame S)
  final_suspend p (Outcome.fulfilled v) s =
      if (s.cell p).with_resolver
      then (s, Frame.finish p ∷ [])
      else (s, Frame.attempt p (Outcome.fulfilled v) ∷ Frame.finish p ∷ [])
  final_suspend p (Outcome.rejected e) s =
      (s, Frame.attempt p (Outcome.rejected e) ∷ Frame.finish p ∷ [])

  -- An awaiter function, or a thread's code, returns. If an exception leaves it, nothing goes on.
  unfoldable pub leave_function : Outcome → Store S → Result S
  leave_function (Outcome.fulfilled v) s = some (s, [])
  leave_function (Outcome.rejected e) s = none

  -- The end of code that belongs to a promise's coroutine or to nobody.
  unfoldable pub leave : Option ℕ → Outcome → Store S → Result S
  leave none o s = leave_function o s
  leave (some p) o s = some (final_suspend p o s)

  abbrev pub with_awaiters : ℕ → Cell S × List (Awaiter S) → Store S → Store S × List (Frame S)
  with_awaiters p (c, as') s = (write p c s, Frame.loop p as' ∷ [])

  unfoldable pub suspend_or_resume :
      Option Outcome → Option ℕ → ℕ → (Outcome → Code S) → Store S → Result S
  suspend_or_resume (some o) owner p k s = guard (valid s p) (s, Frame.run owner (k o) ∷ [])
  suspend_or_resume none owner p k s =
      guard (free s p) (write p (await_coroutine owner k (s.cell p)) s, [])

  unfoldable pub await_or_go :
      Option Outcome
      → Option ℕ
      → ℕ
      → Code S
      → (Outcome → Code S)
      → (ℕ → Code S)
      → Store S
      → Result S
  await_or_go (some o) owner p f k d s = guard (free s p) (s, Frame.run owner (k o) ∷ [])
  await_or_go none owner p f k d s =
      let (c, id) = await_function f (s.cell p) in
      guard (free s p) (write p c s, Frame.run owner (d id) ∷ [])

  unfoldable pub create_or_go :
      Option Outcome
      → Option ℕ
      → ℕ
      → (ℕ → Code S)
      → (Outcome → Code S)
      → (ℕ → Code S)
      → Store S
      → Result S
  create_or_go (some o) owner p f k d s = guard (free s p) (s, Frame.run owner (k o) ∷ [])
  create_or_go none owner p f k d s =
      let (c, id) = await_function (f s.next) (s.cell p) in
      guard (free s p) (write p c (alloc (blank true false) s), Frame.run owner (d s.next) ∷ [])

  unfoldable pub read_outcome :
      Option Outcome → Option ℕ → ℕ → (Outcome → Code S) → Store S → Result S
  read_outcome (some o) owner p k s = guard (valid s p) (s, Frame.run owner (k o) ∷ [])
  read_outcome none owner p k s = none

  -- `Promise<T, true>::Create()`
  abbrev pub create_promise : Option ℕ → (ℕ → Code S) → Store S → Result S
  create_promise w k s = some (alloc (blank true false) s, Frame.run w (k s.next) ∷ [])

  -- `CreateImpl`: the new coroutine runs first, then its caller.
  abbrev pub start_coroutine : Option ℕ → Bool → (ℕ → Code S) → (ℕ → Code S) → Store S → Result S
  start_coroutine w r body k s =
      some (
        alloc (blank r true) s,
        Frame.run (some s.next) (body s.next) ∷ Frame.run w (k s.next) ∷ [],
      )

  -- `Resolver::Resolve`, `Resolver::Reject`, and the call of a `Reject` handle.
  abbrev pub call_resolve : Option ℕ → ℕ → Value → (Bool → Code S) → Store S → Result S
  call_resolve w p v k s =
      guard (valid s p) (
        exchange p (Outcome.fulfilled v) (Frame.run w (k true) ∷ []) (Frame.run w (k false) ∷ []) s)

  abbrev pub call_resolver_reject : Option ℕ → ℕ → Exn → (Bool → Code S) → Store S → Result S
  call_resolver_reject w p e k s =
      guard (valid s p)
        (exchange p (Outcome.rejected e) (Frame.run w (k true) ∷ []) (Frame.run w (k false) ∷ []) s)

  abbrev pub call_reject : Option ℕ → ℕ → Exn → (Bool → Code S) → Store S → Result S
  call_reject w p e k s = guard (valid s p) (
      if (s.cell p).rejected then (s, Frame.run w (k false) ∷ []) else (
        write p (record (s.cell p) { rejected = true }) s,
        Frame.run w (Code.resolver_reject p e k) ∷ [],
      ))

  abbrev pub call_un_await : Option ℕ → ℕ → ℕ → (Bool → Code S) → Store S → Result S
  call_un_await w p id k s =
      let (c, removed) = Cell.un_await id (s.cell p) in
      guard (free s p) (write p c s, Frame.run w (k removed) ∷ [])

  -- `Race` on a race that is decided counts the promise as used.
  abbrev pub call_count_use : Option ℕ → ℕ → Code S → Store S → Result S
  call_count_use w p k s = guard (free s p) (
    write p
        (record (s.cell p) {
          use_count = suc (s.cell p).use_count;
          notified = suc (s.cell p).notified;
        })
        s,
    Frame.run w k ∷ [],
  )

  -- `cv_.wait`: the predicate is read, and if it does not hold the thread falls asleep.
  abbrev pub wait_or_go : Bool → Option ℕ → ℕ → Condition → Code S → Store S → List (Frame S)
  wait_or_go true w p q k s = Frame.run w k ∷ []
  wait_or_go false w p q k s = Frame.asleep w p q (s.cell p).notified k ∷ []

  -- A sleeping thread wakes up only once the promise has notified since, and reads it again.
  abbrev pub wake_up : Option ℕ → ℕ → Condition → ℕ → Code S → Store S → Result S
  wake_up w p q n k s =
      guard (valid s p && not ((s.cell p).notified == n))
        (s, wait_or_go (holds q (s.cell p)) w p q k s)

  -- `WaitDone` and `WaitAwaited`
  abbrev pub call_wait_done : Option ℕ → ℕ → Code S → Store S → Result S
  call_wait_done w p k s =
      guard (valid s p) (s, wait_or_go (holds Condition.done (s.cell p)) w p Condition.done k s)

  abbrev pub call_wait_awaited : Option ℕ → ℕ → ℕ → Code S → Store S → Result S
  call_wait_awaited w p n k s =
      guard (valid s p)
        (s, wait_or_go (holds (Condition.used n) (s.cell p)) w p (Condition.used n) k s)

  -- `Awaiters` and `UseCount`
  abbrev pub call_read_counts : Option ℕ → ℕ → (ℕ → ℕ → Code S) → Store S → Result S
  call_read_counts w p k s =
      guard (valid s p) (s, Frame.run w (k (length (s.cell p).awaiters) (s.cell p).use_count) ∷ [])

  unfoldable pub exec_code : Option ℕ → Code S → Store S → Result S
  exec_code w (Code.ret v) s = leave w (Outcome.fulfilled v) s
  exec_code w (Code.throw e) s = leave w (Outcome.rejected e) s
  exec_code w (Code.create k) s = create_promise w k s
  exec_code w (Code.start r body k) s = start_coroutine w r body k s
  exec_code w (Code.co_await p k) s = suspend_or_resume (outcome (s.cell p)) w p k s
  exec_code w (Code.on_done p f k d) s = await_or_go (outcome (s.cell p)) w p f k d s
  exec_code w (Code.on_done_or_create p f k d) s = create_or_go (outcome (s.cell p)) w p f k d s
  exec_code w (Code.read p k) s = read_outcome (outcome (s.cell p)) w p k s
  exec_code w (Code.resolve p v k) s = call_resolve w p v k s
  exec_code w (Code.resolver_reject p e k) s = call_resolver_reject w p e k s
  exec_code w (Code.reject p e k) s = call_reject w p e k s
  exec_code w (Code.un_await p id k) s = call_un_await w p id k s
  exec_code w (Code.count_use p k) s = call_count_use w p k s
  exec_code w (Code.status p k) s = guard (valid s p) (s, Frame.run w (k (outcome (s.cell p))) ∷ [])
  exec_code w (Code.read_counts p k) s = call_read_counts w p k s
  exec_code w (Code.detach p k) s =
      guard (free s p) (write p (Cell.detach (s.cell p)) s, Frame.run w k ∷ [])
  exec_code w (Code.lock_shared p k) s =
      guard (valid s p)
        (write p (record (s.cell p) { readers = suc (s.cell p).readers }) s, Frame.run w k ∷ [])
  exec_code w (Code.unlock_shared p k) s =
      guard (valid s p)
        (write p (record (s.cell p) { readers = (s.cell p).readers - 1 }) s, Frame.run w k ∷ [])
  exec_code w (Code.wait_done p k) s = call_wait_done w p k s
  exec_code w (Code.wait_awaited p n k) s = call_wait_awaited w p n k s
  exec_code w (Code.locked f k) s =
      some (record s { shared = f s.shared }, Frame.run w (k s.shared) ∷ [])
  exec_code w Code.abort s = none

  unfoldable pub exec_loop : ℕ → List (Awaiter S) → List (Frame S)
  exec_loop p [] = []
  exec_loop p (Awaiter.coroutine w k ∷ as') = Frame.resume w p k ∷ Frame.loop p as' ∷ []
  exec_loop p (Awaiter.function id f ∷ as') = Frame.run none f ∷ Frame.loop p as' ∷ []

  unfoldable pub exec : Frame S → Store S → Result S
  exec (Frame.run w c) s = exec_code w c s
  exec (Frame.resume w p k) s = read_outcome (outcome (s.cell p)) w p k s
  exec (Frame.attempt p o) s = guard (valid s p) (exchange p o [] [] s)
  exec (Frame.settling p o) s = guard (free s p) (with_awaiters p (settle o (s.cell p)) s)
  exec (Frame.loop p as') s = some (s, exec_loop p as')
  exec (Frame.asleep w p q n k) s = wake_up w p q n k s
  exec (Frame.finish p) s = guard (free s p) (with_awaiters p (release_handle (s.cell p)) s)
