-- ===== src/Sync/CvPromise.antt =====
-- `CVPromise`. src/CVPromise.cpp, include/promise/CVPromise.h
pub mod Waking
use jspro_cpp.Prelude.{ℕ, Option, none, some, Bool, true, false}
use jspro_cpp.Runtime.Value.{void, Exn, cv_end, Outcome, fulfilled, rejected}
use jspro_cpp.Runtime.Code.{Code}
use jspro_cpp.Runtime.Place.{Place}
use jspro_cpp.Runtime.Store.{Store}
use jspro_cpp.Combinators.Wrapper.{ask_resolved, ask_rejected}

-- `promise_`, and the promises of the handles `resolve_` and `reject_`.
pub record CvPromise : Type 0 where
  pub promise : ℕ
  pub resolve : ℕ
  pub reject : ℕ

abbrev pub fresh_cv : ℕ → CvPromise
fresh_cv p = record { promise = p; resolve = p; reject = p }

-- `assert(old_promise.Done())`
unfoldable pub assert_done : {S : Type 0} → ℕ → Code S → Code S
assert_done p k = Code.status p λ o. elim o [ none ↦ Code.abort | some _ ↦ k ]

module _ {S : Type 0} ⦃at : Place CvPromise S⦄ where
  -- The object as it stands in the store, and the store with it changed.
  abbrev pub cv_of : Store S → CvPromise
  cv_of s = at.get s.shared

  abbrev pub with_cv : CvPromise → Store S → Store S
  with_cv c s = record s { shared = at.put c s.shared }

  unfoldable pub cv_new : Code S → Code S
  cv_new k = Code.create λ p. Code.locked (at.put (fresh_cv p)) λ _. k

  unfoldable pub notify : Code S → Code S
  notify k = Code.create λ p.
      Code.locked (at.put (fresh_cv p))
        λ x. Code.resolve (at.get x).resolve void λ _. assert_done (at.get x).promise k

  -- `CVPromise::Reject`
  unfoldable pub reject_with : Exn → Code S → Code S
  reject_with e k = Code.create λ p.
      Code.locked (at.put (fresh_cv p))
        λ x. Code.reject (at.get x).reject e λ _. assert_done (at.get x).promise k

  -- The destructor.
  unfoldable pub destroy : Code S → Code S
  destroy k = Code.locked (λ x. x) λ x. Code.reject (at.get x).reject cv_end λ _. k

  -- `Wait`, `operator*` and the conversion.
  unfoldable pub wait : (ℕ → Code S) → Code S
  wait k = Code.locked (λ x. x) λ x. k (at.get x).promise

  unfoldable pub cv_resolved : (Bool → Code S) → Code S
  cv_resolved k = Code.locked (λ x. x) λ x. ask_resolved (at.get x).promise k

  unfoldable pub cv_rejected : (Bool → Code S) → Code S
  cv_rejected k = Code.locked (λ x. x) λ x. ask_rejected (at.get x).promise k
