-- ===== src/Sync/Mutex/Guard.antt =====
-- A guard whose lock is still awaited. src/Mutex.cpp
use jspro_cpp.Prelude.{ℕ, suc, ◌≡◌, Option, some, List, [], ◌∷◌}
use jspro_cpp.Runtime.Value.{void, fulfilled}
use jspro_cpp.Runtime.Code.{Code, Awaiter}
use jspro_cpp.Runtime.Cell.{outcome}
use jspro_cpp.Runtime.Store.{Store}
use jspro_cpp.Machine.Exec.{Frame}
use jspro_cpp.Machine.Runs.{Runs, Runs-trans}
use jspro_cpp.Sync.Mutex.{Mutex, guard_new, guard_lock, guard_destroy, unlock}
use jspro_cpp.Sync.Mutex.Queue.{Held}
use jspro_cpp.Sync.Mutex.Locking.{lock-Held}
use jspro_cpp.Sync.Mutex.Unlocking.{unlock_next}
use jspro_cpp.Runtime.Place.{Place}

module _ {S : Type 0} ⦃at : Place Mutex S⦄ where
  -- On a mutex that is held by the `Lock` with the promise `r`, with nobody waiting, a new guard asks
  -- for the lock and is destroyed at once, before the mutex is granted to it. The destructor releases
  -- the mutex all the same: the guard's own `Lock` is granted, and holds the mutex, although the
  -- holder never called `UnLock`.
  pub early_guard :
      (s : Store S) (r : ℕ) (w : Option ℕ) (k : Code S) (fs : List (Frame S))
      → Held s r []
      → (s' : Store S) × (as' : List (Awaiter S)) × Runs s
          (Frame.run w (guard_lock guard_new (λ g q. guard_destroy g k)) ∷ fs)
          s'
          (Frame.loop s.next as' ∷ Frame.loop r [] ∷ Frame.run w k ∷ fs)
        × (outcome (s'.cell s.next) ≡ some (fulfilled void))
        × Held s' (suc s.next) []
  unfolding guard_lock guard_new guard_destroy
  early_guard s r w k fs h =
      let (s₁, asked, pending, held) = lock-Held s r [] w (λ q. unlock k) fs h in
      let (s₂, left, granted, held') = unlock_next s₁ r s.next (suc s.next) [] w k fs held in
      (s₂, (s₁.cell s.next).awaiters, Runs-trans asked left, granted, held')
