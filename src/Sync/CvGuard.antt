-- ===== src/Sync/CvGuard.antt =====
-- `CVPromise::Wait` with a guard: the condition promise, the mutex and the guard are parts of one
-- state. src/CVPromise.cpp, src/Mutex.cpp
pub mod Leaving
pub mod Coming
pub mod Chained
pub mod Awakened
pub mod Refused
pub mod Signalled
pub mod Waiting
use jspro_cpp.Prelude.{ℕ, Bool, true, false, refl, if◌then◌else◌}
use jspro_cpp.Runtime.Value.{Outcome, fulfilled, rejected}
use jspro_cpp.Runtime.Code.{Code}
use jspro_cpp.Runtime.Place.{Place}
use jspro_cpp.Combinators.Fun.{Fun, done_void}
use jspro_cpp.Combinators.Then.{then_move}
use jspro_cpp.Sync.Mutex.{Mutex, LockGuard, lock, unlock}
use jspro_cpp.Sync.CvPromise.{CvPromise, wait}

-- A condition promise, a mutex, and a guard of that mutex.
pub record Site : Type 0 where
  pub cv : CvPromise
  pub mutex : Mutex
  pub guard : LockGuard

instance abbrev pub site_cv : Place CvPromise Site
site_cv = record { get = λ x. x.cv; put = λ c x. record x { cv = c }; get_put = λ c x. refl }

instance abbrev pub site_mutex : Place Mutex Site
site_mutex = record {
  get = λ x. x.mutex;
  put = λ m x. record x { mutex = m };
  get_put = λ m x. refl;
}

-- The guard's flag.
abbrev pub set_own : Bool → Site → Site
set_own b x = record x { guard = record x.guard { own_lock = b } }

-- `LockGuard::Lock` on a guard that others refer to, and the `co_await` on its promise.
unfoldable pub relock_on : LockGuard → Code Site
relock_on g =
    if g.has_mutex
    then (if g.own_lock
        then Code.abort
        else Code.locked (set_own true) (λ _.
          lock λ q.
            Code.co_await q λ o. elim o [ rejected e ↦ Code.throw e | fulfilled v ↦ done_void ]))
    else Code.abort

unfoldable pub relock : Code Site
relock = Code.locked (λ x. x) λ x. relock_on x.guard

-- `LockGuard::Unlock` on such a guard.
unfoldable pub release_on : LockGuard → Code Site → Code Site
release_on g k =
    if g.own_lock
    then (if g.has_mutex then Code.locked (set_own false) (λ _. unlock k) else Code.abort)
    else Code.abort

-- `CVPromise::Wait` with a guard: `Then` on the promise `p`, after `Unlock` if the guard owns.
unfoldable pub wait_after : ℕ → LockGuard → (ℕ → Code Site) → Code Site
wait_after p g k =
    let rest : Code Site = then_move true p (Fun.coroutine λ _. relock) k in
    if g.own_lock then Code.locked (λ x. x) (λ x. release_on x.guard rest) else rest

unfoldable pub wait_guard : (ℕ → Code Site) → Code Site
wait_guard k = wait λ p. Code.locked (λ x. x) λ x. wait_after p x.guard k
