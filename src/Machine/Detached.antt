-- ===== src/Machine/Detached.antt =====
-- The store after `Detach`, and the locks after a report. include/promise/details/Handle.inl
use jspro_cpp.Prelude.{ℕ, ◌≡◌, ◌≢◌, refl, true, Option, some, List, ◌∷◌, arith, ==_refl}
use jspro_cpp.Runtime.Code.{Code}
use jspro_cpp.Runtime.Cell.{Cell, outcome, settle, on_resolved}
use jspro_cpp.Runtime.Cell
use jspro_cpp.Runtime.Store.{Store, write, free}
use jspro_cpp.Machine.Exec.{Frame, exec, exec_code}
use jspro_cpp.Machine.Threads.{step}

module _ {S : Type 0} where
  pub detached : ℕ → Store S → Store S
  detached p s = write p (Cell.detach (s.cell p)) s

  pub step-detach :
      (s : Store S) (w : Option ℕ) (p : ℕ) (k : Code S) (fs : List (Frame S))
      → free s p ≡ true
      → step s (Frame.run w (Code.detach p k) ∷ fs) ≡ some (detached p s, Frame.run w k ∷ fs)
  unfolding step exec exec_code detached
  step-detach s w p k fs v = rw v refl

  pub detached-next : (s : Store S) (p : ℕ) → (detached p s).next ≡ s.next
  unfolding detached
  detached-next s p = refl

  pub detached-shared : (s : Store S) (p : ℕ) → (detached p s).shared ≡ s.shared
  unfolding detached
  detached-shared s p = refl

  pub detached-readers :
      (s : Store S) (p q : ℕ) → ((detached p s).cell q).readers ≡ (s.cell q).readers
  unfolding detached Cell.detach
  detached-readers s p q = ground arith

  pub detached-outcome :
      (s : Store S) (p q : ℕ) → outcome ((detached p s).cell q) ≡ outcome (s.cell q)
  unfolding detached Cell.detach
  detached-outcome s p q = ground arith

  pub detached-other : (s : Store S) (p q : ℕ) → p ≢ q → (detached p s).cell q ≡ s.cell q
  unfolding detached
  detached-other s p q n = ground arith

  pub detached-cell : (s : Store S) (p : ℕ) → (detached p s).cell p ≡ Cell.detach (s.cell p)
  unfolding detached
  detached-cell s p = rw (==_refl p) refl
