-- ===== src/Sync/CvGuard/Leaving.antt =====
-- The guard gives the mutex up. src/CVPromise.cpp, src/Mutex.cpp
use jspro_cpp.Prelude.{ℕ, ◌≡◌, ◌≢◌, refl, sym, ap, subst, ◌∙◌, false, Option, List, [], ◌∷◌, arith}
use jspro_cpp.Runtime.Code.{Code}
use jspro_cpp.Runtime.Store.{Store}
use jspro_cpp.Machine.Exec.{Frame}
use jspro_cpp.Machine.Runs.{Runs, stop, next, Runs-trans, step-locked, step-loop_end}
use jspro_cpp.Sync.Mutex.{LockGuard}
use jspro_cpp.Sync.Mutex.Line.{Link, Link-Same}
use jspro_cpp.Sync.Mutex.Queue.{Free, Held}
use jspro_cpp.Sync.Mutex.Unlocking.{left, left-Runs, left-Same, left-next, left-Free, left-state}
use jspro_cpp.Sync.CvGuard.{Site, site_mutex, set_own, release_on}
use jspro_cpp.Sync.CvGuard.Coming.{owning, away}

module _ (s : Store Site) (r : ℕ) (held : Held s r []) (owned : s.shared.guard ≡ owning) where
  abbrev unflagged : Store Site
  unflagged = record s { shared = set_own false s.shared }

  link : Link unflagged r []
  link = Link-Same s unflagged r [] (record { grown = omega arith; same = refl }) held.line.1

  -- The store once the mutex is released.
  abbrev pub gone : Store Site
  gone = left unflagged r

  pub release-Runs :
      (w : Option ℕ) (rest : Code Site) (fs : List (Frame Site))
      → Runs s
          (Frame.run w (Code.locked (λ x. x) λ x. release_on x.guard rest) ∷ fs)
          gone
          (Frame.run w rest ∷ fs)
  unfolding release_on
  release-Runs w rest fs = next (step-locked s w _ _ fs) (
      subst (λ g. Runs s (Frame.run w (release_on g rest) ∷ fs) gone (Frame.run w rest ∷ fs))
        (sym owned)
        (next (step-locked s w _ _ fs) (
          Runs-trans (left-Runs unflagged r [] w rest fs held.handle link)
            (next (step-loop_end gone r (Frame.run w rest ∷ fs)) stop))))

  pub gone-Free : Free gone
  gone-Free = left-Free unflagged r held.line.0 link

  pub gone-next : gone.next ≡ s.next
  gone-next = left-next unflagged r

  pub gone-other : (p : ℕ) → r ≢ p → gone.cell p ≡ s.cell p
  gone-other p n = (left-Same unflagged r p n).same

  pub gone-away : gone.shared.guard ≡ away
  gone-away =
      ap (λ x. x.guard) (left-state unflagged r)
      ∙ ap (λ (g : LockGuard). record g { own_lock = false }) owned

  pub gone-cv : gone.shared.cv ≡ s.shared.cv
  gone-cv = ap (λ x. x.cv) (left-state unflagged r)
