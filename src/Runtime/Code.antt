-- ===== src/Runtime/Code.antt =====
-- C++ code as data: each operation of `Code` is one critical section of the library on the details
-- of one promise, with the code that follows it. `S` is state shared besides the promises.
-- include/promise/core/Promise.h, include/promise/core/Handle.h
use jspro_cpp.Prelude.{ℕ, Bool, Option}
use jspro_cpp.Runtime.Value.{Value, Exn, Outcome}

pub data Code (S : Type 0) : Type 0 where
  ret : Value → Code S
  throw : Exn → Code S
  -- `Promise<T, true>::Create()`: a promise with no coroutine
  create : (ℕ → Code S) → Code S
  -- `CreateImpl`: whether it is a resolver promise, the coroutine's body, and the caller's rest
  start : Bool → (ℕ → Code S) → (ℕ → Code S) → Code S
  co_await : ℕ → (Outcome → Code S) → Code S
  -- under one exclusive lock: go on with the outcome if the promise is done, else `Await` the
  -- function and go on with its id
  on_done : ℕ → Code S → (Outcome → Code S) → (ℕ → Code S) → Code S
  -- the same, with the new promise made while the lock is held: the function and the rest get it
  on_done_or_create : ℕ → (ℕ → Code S) → (Outcome → Code S) → (ℕ → Code S) → Code S
  -- `GetException` and `GetValue` under a shared lock
  read : ℕ → (Outcome → Code S) → Code S
  -- a call of the `Resolve` handle, of the `Reject` handle, and of `Resolver::Reject`
  resolve : ℕ → Value → (Bool → Code S) → Code S
  reject : ℕ → Exn → (Bool → Code S) → Code S
  resolver_reject : ℕ → Exn → (Bool → Code S) → Code S
  un_await : ℕ → ℕ → (Bool → Code S) → Code S
  count_use : ℕ → Code S → Code S
  -- `Done`, `Resolved`, `Rejected`, `Value` and `Exception` of the wrapper
  status : ℕ → (Option Outcome → Code S) → Code S
  -- `Awaiters` and `UseCount` of the details
  read_counts : ℕ → (ℕ → ℕ → Code S) → Code S
  detach : ℕ → Code S → Code S
  -- a shared lock on the promise that is held across other operations
  lock_shared : ℕ → Code S → Code S
  unlock_shared : ℕ → Code S → Code S
  -- the blocking waits on the condition variable
  wait_done : ℕ → Code S → Code S
  wait_awaited : ℕ → ℕ → Code S → Code S
  -- a critical section on the lock of another object; what follows has its earlier state
  locked : (S → S) → (S → Code S) → Code S
  -- a failed assertion
  abort : Code S

-- `std::variant<std::coroutine_handle<>, AwaitFunction>`. A coroutine is what it does with the
-- outcome, and the promise that it belongs to if that is one of the library's.
pub data Awaiter (S : Type 0) : Type 0 where
  coroutine : Option ℕ → (Outcome → Code S) → Awaiter S
  function : ℕ → Code S → Awaiter S

module _ {S : Type 0} where
  -- `try { c } catch (...) { … }`, with what follows on either path.
  unfoldable pub try_catch : Code S → (Value → Code S) → (Exn → Code S) → Code S
  try_catch (Code.ret v) k h = k v
  try_catch (Code.throw e) k h = h e
  try_catch (Code.create c) k h = Code.create λ p. try_catch (c p) k h
  try_catch (Code.start b body c) k h = Code.start b body λ p. try_catch (c p) k h
  try_catch (Code.co_await p c) k h = Code.co_await p λ o. try_catch (c o) k h
  try_catch (Code.on_done p f c d) k h =
      Code.on_done p f (λ o. try_catch (c o) k h) (λ i. try_catch (d i) k h)
  try_catch (Code.on_done_or_create p f c d) k h =
      Code.on_done_or_create p f (λ o. try_catch (c o) k h) (λ r. try_catch (d r) k h)
  try_catch (Code.read p c) k h = Code.read p λ o. try_catch (c o) k h
  try_catch (Code.resolve p v c) k h = Code.resolve p v λ b. try_catch (c b) k h
  try_catch (Code.reject p e c) k h = Code.reject p e λ b. try_catch (c b) k h
  try_catch (Code.resolver_reject p e c) k h = Code.resolver_reject p e λ b. try_catch (c b) k h
  try_catch (Code.un_await p i c) k h = Code.un_await p i λ b. try_catch (c b) k h
  try_catch (Code.count_use p c) k h = Code.count_use p (try_catch c k h)
  try_catch (Code.status p c) k h = Code.status p λ o. try_catch (c o) k h
  try_catch (Code.read_counts p c) k h = Code.read_counts p λ n u. try_catch (c n u) k h
  try_catch (Code.detach p c) k h = Code.detach p (try_catch c k h)
  try_catch (Code.lock_shared p c) k h = Code.lock_shared p (try_catch c k h)
  try_catch (Code.unlock_shared p c) k h = Code.unlock_shared p (try_catch c k h)
  try_catch (Code.wait_done p c) k h = Code.wait_done p (try_catch c k h)
  try_catch (Code.wait_awaited p n c) k h = Code.wait_awaited p n (try_catch c k h)
  try_catch (Code.locked f c) k h = Code.locked f λ m. try_catch (c m) k h
  try_catch Code.abort k h = Code.abort

  -- A call whose exception leaves the caller too.
  unfoldable pub call : Code S → (Value → Code S) → Code S
  call c k = try_catch c k Code.throw
