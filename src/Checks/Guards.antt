-- ===== src/Checks/Guards.antt =====
-- A guard that waits for a condition promise.
use jspro_cpp.Prelude.{ℕ, ◌≡◌, refl, true, false, none, some, [], ◌∷◌, arith}
use jspro_cpp.Runtime.Value.{void, user}
use jspro_cpp.Runtime.Code.{Code}
use jspro_cpp.Runtime.Cell.{blank, outcome}
use jspro_cpp.Runtime.Store.{Store}
use jspro_cpp.Machine.Exec.{Frame}
use jspro_cpp.Machine.Runs.{Runs}
use jspro_cpp.Machine.Settled.{Quiet}
use jspro_cpp.Sync.Mutex.Queue.{Free}
use jspro_cpp.Sync.CvPromise.{fresh_cv, notify, reject_with}
use jspro_cpp.Sync.CvGuard.{Site, site_cv, site_mutex, wait_guard}
use jspro_cpp.Sync.CvGuard.Coming.{owning, away}
use jspro_cpp.Sync.CvGuard.Awakened.{Over}
use jspro_cpp.Sync.CvGuard.Refused.{Failed}
use jspro_cpp.Sync.CvGuard.Waiting.{wait_guard_wakes}

-- The condition's promise is 0, and the guard's `Lock` has the promise 1.
abbrev guarded : Store Site
guarded = record {
  next = 2;
  cell = λ _. blank true false;
  shared = record {
    cv = fresh_cv 0;
    mutex = record { promise = 1; resolve = some 1 };
    guard = owning;
  };
}

abbrev after_wait : ℕ → Code Site
after_wait q = Code.ret void

abbrev after_notify : Code Site
after_notify = Code.ret void

guarded-Quiet : Quiet guarded 1
guarded-Quiet = record { known = omega arith; open_ = refl; unread = refl; idle = refl }

wait_guard_wakes_example :
    (s' : Store Site) × (q : ℕ) × Runs guarded
      (Frame.run none (wait_guard after_wait) ∷ [])
      s'
      (Frame.run none (after_wait q) ∷ [])
    × (outcome (s'.cell q) ≡ none)
    × Free s'
    × (s'.shared.guard ≡ away)
    × ((s'' : Store Site) × Runs s'
          (Frame.run none (notify after_notify) ∷ [])
          s''
          (Frame.run none after_notify ∷ [])
        × Over 0 q s'')
    × ((s'' : Store Site) × Runs s'
          (Frame.run none (reject_with (user 3) after_notify) ∷ [])
          s''
          (Frame.run none after_notify ∷ [])
        × Failed 0 q (user 3) s'')
wait_guard_wakes_example =
    wait_guard_wakes guarded 0 1 (user 3) none none after_wait after_notify [] []
      (record {
        here = refl;
        quiet = record { known = omega arith; open_ = refl; unread = refl; idle = refl };
        undone = refl;
        unused = refl;
      })
      refl
      (record {
        handle = refl;
        line = (refl, record { quiet = guarded-Quiet; undone = refl; queue = refl });
      })
      refl (λ e. omega (arith, e))
