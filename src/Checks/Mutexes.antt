-- ===== src/Checks/Mutexes.antt =====
-- Mutexes, free and held.
use jspro_cpp.Prelude.{List, ℕ, zero, suc, ◌≡◌, refl, true, false, none, some, [], ◌∷◌, arith}
use jspro_cpp.Runtime.Value.{void, fulfilled}
use jspro_cpp.Runtime.Code.{Code, Awaiter}
use jspro_cpp.Runtime.Cell.{Cell, blank, outcome}
use jspro_cpp.Runtime.Store.{Store}
use jspro_cpp.Runtime.Place.{whole}
use jspro_cpp.Machine.Exec.{Frame}
use jspro_cpp.Machine.Runs.{Runs}
use jspro_cpp.Sync.Mutex.{Mutex, lock, unlock, lock_granted}
use jspro_cpp.Sync.Mutex.{guard_new, guard_lock, guard_destroy}
use jspro_cpp.Sync.Mutex.Guard.{early_guard}
use jspro_cpp.Sync.Mutex.Queue.{Free, Held}
use jspro_cpp.Sync.Mutex.Locking.{lock-Free, lock-Held}
use jspro_cpp.Sync.Mutex.Unlocking.{unlock_last, unlock_next}

-- A mutex that is free: its promise is resolved.
abbrev free_mutex : Store Mutex
free_mutex = record {
  next = 1;
  cell = λ _. record (blank true false) { value = some void; resolved = true };
  shared = record { promise = 0; resolve = none };
}

abbrev after_lock : ℕ → Code Mutex
after_lock q = Code.ret void

abbrev after_unlock : Code Mutex
after_unlock = Code.ret void

lock-Free_example :
    (s' : Store Mutex) × Runs free_mutex
      (Frame.run none (lock after_lock) ∷ [])
      s'
      (Frame.run none (after_lock 1) ∷ [])
    × (outcome (s'.cell 1) ≡ some (fulfilled void))
    × Held s' 2 []
lock-Free_example =
    lock-Free free_mutex none after_lock []
      (record { handle = refl; known = omega arith; open_ = refl })

-- A mutex that is held by the `Lock` with the promise 0.
abbrev held_mutex : Store Mutex
held_mutex = record {
  next = 1;
  cell = λ _. blank true false;
  shared = record { promise = 0; resolve = some 0 };
}

held_mutex-Held : Held held_mutex 0 []
held_mutex-Held = record {
  handle = refl;
  line = (
    refl,
    record {
      quiet = record { known = omega arith; open_ = refl; unread = refl; idle = refl };
      undone = refl;
      queue = refl;
    },
  );
}

lock-Held_example :
    (s' : Store Mutex) × Runs held_mutex
      (Frame.run none (lock after_lock) ∷ [])
      s'
      (Frame.run none (after_lock 1) ∷ [])
    × (outcome (s'.cell 1) ≡ none)
    × Held s' 0 ((1, 2) ∷ [])
lock-Held_example = lock-Held held_mutex 0 [] none after_lock [] held_mutex-Held

early_guard_example :
    (s' : Store Mutex) × (as' : List (Awaiter Mutex)) × Runs held_mutex
      (Frame.run none (guard_lock guard_new (λ g q. guard_destroy g after_unlock)) ∷ [])
      s'
      (Frame.loop 1 as' ∷ Frame.loop 0 [] ∷ Frame.run none after_unlock ∷ [])
    × (outcome (s'.cell 1) ≡ some (fulfilled void))
    × Held s' 2 []
early_guard_example = early_guard held_mutex 0 none after_unlock [] held_mutex-Held

unlock_last_example :
    (s' : Store Mutex) × Runs held_mutex
      (Frame.run none (unlock after_unlock) ∷ [])
      s'
      (Frame.run none after_unlock ∷ [])
    × Free s'
unlock_last_example = unlock_last held_mutex 0 none after_unlock [] held_mutex-Held

-- A mutex that another `Lock` waits for.
abbrev busy_cell : ℕ → Cell Mutex
busy_cell zero = record (blank true false) {
  awaiters = Awaiter.coroutine (some 1) (lock_granted 2) ∷ [];
  use_count = 1;
}
busy_cell (suc zero) = blank false true
busy_cell (suc (suc p)) = blank true false

abbrev busy_mutex : Store Mutex
busy_mutex = record {
  next = 3;
  cell = busy_cell;
  shared = record { promise = 2; resolve = some 0 };
}

busy_mutex-Held : Held busy_mutex 0 ((1, 2) ∷ [])
busy_mutex-Held = record {
  handle = refl;
  line = (
    omega arith,
    omega arith,
    record {
      quiet = record { known = omega arith; open_ = refl; unread = refl; idle = refl };
      undone = refl;
      queue = refl;
    },
    record {
      running = record {
        known = omega arith;
        open_ = refl;
        unread = refl;
        runs = refl;
        direct = refl;
      };
      undone = refl;
    },
    (
      refl,
      record {
        quiet = record { known = omega arith; open_ = refl; unread = refl; idle = refl };
        undone = refl;
        queue = refl;
      },
    ),
  );
}

unlock_next_example :
    (s' : Store Mutex) × Runs busy_mutex
      (Frame.run none (unlock after_unlock) ∷ [])
      s'
      (Frame.loop 1 [] ∷ Frame.loop 0 [] ∷ Frame.run none after_unlock ∷ [])
    × (outcome (s'.cell 1) ≡ some (fulfilled void))
    × Held s' 2 []
unlock_next_example = unlock_next busy_mutex 0 1 2 [] none after_unlock [] busy_mutex-Held
