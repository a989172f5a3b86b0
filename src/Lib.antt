-- ===== src/Lib.antt =====
-- JSProCpp: JavaScript-like promises for C++ coroutines.
--
-- The program. A promise is a shared record of details (`details::Promise` over `Handle`): a lock, a
-- coroutine handle, a list of awaiters, and a `Resolver` that holds the value or the exception and a
-- flag that makes the first call of `Resolve` or `Reject` the only one. User code holds wrappers
-- (`details::WPromise`) and `Resolve` and `Reject` handles. `Then`, `Catch`, `Finally`, `Race` and
-- `All` make new promises; settling a promise runs its awaiters on the settling thread. `Mutex`,
-- `CVPromise` and `StatePromise` are objects whose state is promises and their handles.
--
-- The files.
--   Prelude          shared notation, Boolean tests and lists over the native numbers
--   Runtime          data. Value: values, exceptions, outcomes. Code: C++ code as a tree whose nodes
--                    are the critical sections of the library. Cell: the details of a promise and
--                    the critical sections on them (include/promise/core/Handle.h,
--                    include/promise/core/Resolver.h, include/promise/details/Handle.inl,
--                    include/promise/details/Promise.inl, include/promise/details/Resolver.inl):
--                    `OnResolved` is `on_resolved`, the locked part of `Resolver::Resolve` and
--                    `Resolver::Reject` is `settle`, the scope exit of `final_suspend` is
--                    `release_handle`, `Await` is `await_coroutine` and `await_function`, `UnAwait`
--                    is `un_await`, `Detach` is `detach`. Store: all promises by number, and the
--                    state of another object. CellInvariant: what holds of all details
--   Machine          threads. Exec: one step of one frame of a stack (a call of `Resolve` is
--                    `exchange` and then `settling`, the loop over the awaiters is `exec_loop`, the
--                    end of a coroutine is `final_suspend`). Threads: stacks, threads, schedules.
--                    Stepped, Settling, Kept, Steps, Moved, Invariant, Safety: the invariant of every
--                    schedule. Runs, Settled, Returns, Delivery, Unsettled, Coroutine: what single
--                    operations come to.
--                    Waking: a settling with any number of awaiters. Progress: counters, and the
--                    threads and coroutines that go on
--   Combinators      Fun: callables and `MakePromise` (include/promise/details/helpers.inl). Then,
--                    Catch, Finally, Race, All, AllTuple: the member functions of
--                    include/promise/details/Promise.inl and the functions of
--                    include/promise/details/helpers.inl, for each kind of callable. Wrapper: the
--                    handle that user code holds (include/promise/details/WPromise.inl). Handles:
--                    `MakeReject`, `MakeRPromise`, `Create` and the counters. Spec: what
--                    a chained promise is settled with, as relations. Chain and Laws: the theorems
--   Sync             Mutex, CvPromise, StatePromise: src/Mutex.cpp, src/CVPromise.cpp,
--                    src/StatePromise.cpp, include/promise/CVPromise.h and the other headers.
--                    Pool: include/promise/Pool.h, with the thread pool as a parameter. MessageQueue:
--                    include/promise/MessageQueue.h and include/promise/core/MessageQueueProxy.inl,
--                    with the object's queue as a parameter. CvGuard: `CVPromise::Wait` with a
--                    guard. The operations of `Mutex` and `CVPromise` work wherever their object
--                    stands in the shared state (`Place`, of Runtime). The theorems are in child
--                    modules
--   Types            CppType: C++ types as data. Traits, Returns: the templates of
--                    include/promise/core/concepts.inl and the types that
--                    include/promise/details/helpers.inl computes, as functions; `none` is a type
--                    that is ill-formed. Unique, Typing, Gathered, Deduction: the theorems
--   Memcheck         include/promise/core/Memcheck.h, src/Memcheck.cpp: the counter of live objects
--   Checks           concrete stores and programs, and the theorems at them
--
-- The model. A step is one critical section: what the source does under one lock, or one atomic
-- exchange. Threads interleave between steps, in every order (`schedule`). A frame that waits for a
-- lock, or whose assertion fails, has no step. A thread in `cv_.wait` remembers how often the
-- promise had called `notify_all` when it fell asleep (`notified`, `asleep`), and has no step until
-- the promise calls it again: there are no spurious wake-ups. Then it reads the condition (`holds`)
-- anew. A shared lock that the source keeps across a call is counted in `readers`; an exclusive
-- lock needs that count to be 0. A coroutine is what it does with the outcome that it is resumed
-- with; an exception is `throw`, and `try_catch` is the handler. Ids and counters are natural
-- numbers: they count the calls on one promise, and so are bounded by the number of steps. There is
-- no fuel: `Runs` is an inductive relation of steps, and each theorem that code comes to its end
-- gives the whole run.
--
-- Not modelled. An exception that leaves an awaiter function, and so the call of `Resolve` with the
-- awaiters that are left, or that leaves a thread: that frame has no step. Lifetimes: `shared_ptr`
-- and `weak_ptr` counts, the holder of a coroutine's function, the deletion of details; a promise
-- stays in the store. Memory orders. Where code runs, types are gone: one type of values stands for
-- all `T`, and each operation takes the case that the templates choose as an argument; what they
-- choose is in Types. `MakeResolver`, whose resolver belongs to no promise, and the delays of the
-- pool. The threads of the pool and of the queue, which are of a library outside this repository.
pub mod Prelude
pub mod Runtime
pub mod Machine
pub mod Combinators
pub mod Sync
pub mod Checks
pub mod Types
pub mod Memcheck
