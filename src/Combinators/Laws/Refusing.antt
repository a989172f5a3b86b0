-- ===== src/Combinators/Laws/Refusing.antt =====
-- `MakeReject` on a promise that somebody has settled or is about to settle.
-- include/promise/details/helpers.inl
use jspro_cpp.Prelude.{
  ℕ, ◌<◌, ◌≡◌, refl, Bool, true, false, Option, some, List, ◌∷◌, arith, lt→ltb, ==_refl, Bool-cases,
  inl, inr, if◌then◌else◌,
}
use jspro_cpp.Runtime.Value.{Exn, already_rejected}
use jspro_cpp.Runtime.Code.{Code}
use jspro_cpp.Runtime.Cell.{outcome}
use jspro_cpp.Runtime.Store.{Store, valid}
use jspro_cpp.Machine.Exec.{Frame, exec, exec_code}
use jspro_cpp.Machine.Threads.{step}
use jspro_cpp.Machine.Runs.{Runs, stop, next}
use jspro_cpp.Machine.Settled.{refused, step-reject}
use jspro_cpp.Combinators.Handles.{make_reject, apply_reject}

module _ {S : Type 0} where
  -- What a caller that comes too late goes on with.
  abbrev pub refusal : Bool → (Bool → Code S) → Code S
  refusal relaxed k = if relaxed then k false else Code.throw already_rejected

  step-reject_again :
      (s : Store S) (w : Option ℕ) (p : ℕ) (e : Exn) (k : Bool → Code S) (fs : List (Frame S))
      → valid s p ≡ true
      → (s.cell p).rejected ≡ true
      → step s (Frame.run w (Code.reject p e k) ∷ fs) ≡ some (s, Frame.run w (k false) ∷ fs)
  unfolding step exec exec_code
  step-reject_again s w p e k fs v r = rw (v, r) refl

  step-resolver_reject_late :
      (s : Store S) (w : Option ℕ) (p : ℕ) (e : Exn) (k : Bool → Code S) (fs : List (Frame S))
      → valid s p ≡ true
      → (s.cell p).resolved ≡ true
      → step s (Frame.run w (Code.resolver_reject p e k) ∷ fs)
        ≡ some (s, Frame.run w (k false) ∷ fs)
  unfolding step exec exec_code
  step-resolver_reject_late s w p e k fs v r = rw (v, r) refl

  refused-resolved : (p : ℕ) (s : Store S) → ((refused p s).cell p).resolved ≡ (s.cell p).resolved
  refused-resolved p s = rw (==_refl p)

  refused-outcome : (p q : ℕ) (s : Store S) → outcome ((refused p s).cell q) ≡ outcome (s.cell q)
  refused-outcome p q s = ground arith

  refused-valid : (p : ℕ) (s : Store S) → valid (refused p s) p ≡ valid s p
  refused-valid p s = refl

  -- `MakeReject` on a promise that is `resolved_` already, whether or not its `Reject` handle was
  -- used: with `RELAXED` it goes on with false, without it throws; no promise's outcome changes.
  pub make_reject_late :
      (s : Store S) (w : Option ℕ) (relaxed : Bool) (p : ℕ) (e : Exn) (k : Bool → Code S)
      (fs : List (Frame S))
      → p < s.next
      → (s.cell p).resolved ≡ true
      → (s' : Store S) × Runs s
          (Frame.run w (make_reject relaxed p e k) ∷ fs)
          s'
          (Frame.run w (refusal relaxed k) ∷ fs)
        × ((q : ℕ) → outcome (s'.cell q) ≡ outcome (s.cell q))
  unfolding make_reject apply_reject
  make_reject_late s w relaxed p e k fs l r = elim (Bool-cases (s.cell p).rejected) [
    | inl old ↦ (s, next (step-reject_again s w p e _ fs (lt→ltb p s.next l) old) stop, λ q. refl)
    | inr new ↦ (
      refused p s,
      next (step-reject s w p e _ fs l new) (
          next
            (step-resolver_reject_late (refused p s) w p e _ fs
              (rw (refused-valid p s) (lt→ltb p s.next l)) (rw (refused-resolved p s) r))
            stop),
      λ q. refused-outcome p q s,
    )
  ]
