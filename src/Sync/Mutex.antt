-- ===== src/Sync/Mutex.antt =====
-- `Mutex` and `LockGuard`. src/Mutex.cpp, include/promise/Mutex.h
pub mod Line
pub mod Queue
pub mod Locking
pub mod Unlocking
pub mod Guard
use jspro_cpp.Prelude.{ℕ, Bool, true, false, Option, none, some, if◌then◌else◌}
use jspro_cpp.Runtime.Value.{void, Outcome, fulfilled, rejected}
use jspro_cpp.Runtime.Code.{Code}
use jspro_cpp.Runtime.Place.{Place}
use jspro_cpp.Runtime.Store.{Store}
use jspro_cpp.Combinators.Fun.{resolve_new}

-- `promise_`, and the promise of the `Resolve` handle `resolve_` if it is not null.
pub record Mutex : Type 0 where
  pub promise : ℕ
  pub resolve : Option ℕ

-- `LockGuard`: the flag, and whether the pointer to the mutex is not null.
pub record LockGuard : Type 0 where
  pub own_lock : Bool
  pub has_mutex : Bool

unfoldable pub guard_new : LockGuard
guard_new = record { own_lock = false; has_mutex = true }

-- The move constructor: the new guard, and what is left of the old one.
unfoldable pub guard_move : LockGuard → LockGuard × LockGuard
guard_move right = (right, record { own_lock = false; has_mutex = false })

module _ {S : Type 0} ⦃at : Place Mutex S⦄ where
  -- The mutex as it stands in the store, and the store with it changed.
  abbrev pub mutex_of : Store S → Mutex
  mutex_of s = at.get s.shared

  abbrev pub with_mutex : Mutex → Store S → Store S
  with_mutex m s = record s { shared = at.put m s.shared }

  -- The constructor: the promise is resolved from the start.
  unfoldable pub mutex_new : Code S → Code S
  mutex_new k =
      resolve_new void λ p. Code.locked (at.put (record { promise = p; resolve = none })) λ _. k

  -- The coroutine of `Lock` after its `co_await`.
  unfoldable pub lock_granted : ℕ → Outcome → Code S
  lock_granted r (rejected e) = Code.throw e
  lock_granted r (fulfilled v) =
      Code.locked (λ x. at.put (record (at.get x) { resolve = some r }) x)
        λ x. elim (at.get x).resolve [ none ↦ Code.ret void | some other ↦ Code.abort ]

  -- The coroutine of `Lock`: it queues a new promise and waits for the one before it.
  unfoldable pub lock_body : Code S
  lock_body = Code.create λ r.
      Code.locked (λ x. at.put (record (at.get x) { promise = r }) x)
        λ x. Code.co_await (at.get x).promise (lock_granted r)

  unfoldable pub lock : (ℕ → Code S) → Code S
  lock k = Code.start false (λ _. lock_body) k

  unfoldable pub unlock : Code S → Code S
  unlock k =
      Code.locked (λ x. at.put (record (at.get x) { resolve = none }) x)
        λ x. elim (at.get x).resolve [ none ↦ Code.abort | some r ↦ Code.resolve r void λ _. k ]

  unfoldable pub owns_lock : (Bool → Code S) → Code S
  owns_lock k =
      Code.locked (λ x. x) λ x. elim (at.get x).resolve [ none ↦ k false | some r ↦ k true ]

  -- The flag is set as the lock is asked for; the promise is the one to wait for.
  unfoldable pub guard_lock : LockGuard → (LockGuard → ℕ → Code S) → Code S
  guard_lock g k =
      if g.has_mutex
      then (if g.own_lock then Code.abort else lock (k (record g { own_lock = true })))
      else Code.abort

  unfoldable pub guard_unlock : LockGuard → (LockGuard → Code S) → Code S
  guard_unlock g k =
      if g.own_lock
      then (if g.has_mutex then unlock (k (record g { own_lock = false })) else Code.abort)
      else Code.abort

  -- The destructor.
  unfoldable pub guard_destroy : LockGuard → Code S → Code S
  guard_destroy g k = if g.own_lock then (if g.has_mutex then unlock k else Code.abort) else k

  -- Move assignment from another guard.
  unfoldable pub guard_assign : LockGuard → LockGuard → (LockGuard → LockGuard → Code S) → Code S
  guard_assign g right k =
      guard_destroy g (k right (record { own_lock = false; has_mutex = false }))

  -- `LockGuard::Create`: a coroutine that takes the lock unless it is deferred.
  unfoldable pub guard_create : Bool → (ℕ → Code S) → Code S
  guard_create defer_lock k =
      Code.start false
        (λ _.
          if defer_lock
          then Code.ret void
          else guard_lock guard_new λ g q.
            Code.co_await q λ o. elim o [ rejected e ↦ Code.throw e | fulfilled v ↦ Code.ret void ])
        k
