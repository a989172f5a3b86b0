-- ===== src/Sync/CvPromise/Waking.antt =====
-- `Notify` and `Reject` of a condition promise: who waited is woken, who comes later waits anew.
-- src/CVPromise.cpp
use jspro_cpp.Prelude.{
  ℕ, suc, ◌<◌, ◌≡◌, ◌≢◌, refl, ap, subst, sym, ◌∙◌, true, false, Option, none, some, List, [], ◌∷◌,
  arith, lt→ltb,
}
use jspro_cpp.Runtime.Value.{void, Exn, cv_end, Outcome, fulfilled, rejected}
use jspro_cpp.Runtime.Code.{Code}
use jspro_cpp.Runtime.Place.{Place}
use jspro_cpp.Runtime.Cell.{outcome, blank}
use jspro_cpp.Runtime.Store.{Store}
use jspro_cpp.Machine.Exec.{Frame}
use jspro_cpp.Machine.Runs.{Runs, stop, next, Runs-trans, step-locked, step-status}
use jspro_cpp.Machine.Settled.{
  Quiet, reported, report, report-Runs, reported-outcome, reported-other, reported-shared,
  reported-next,
}
use jspro_cpp.Machine.Returns.{made, made-cell, create-Runs}
use jspro_cpp.Sync.CvPromise.{
  CvPromise, cv_of, with_cv, fresh_cv, notify, reject_with, destroy, assert_done,
}

-- The promise whose handle is called.
abbrev target : Outcome → CvPromise → ℕ
target (fulfilled v) old = old.resolve
target (rejected e) old = old.reject

target-fresh : (o : Outcome) (p : ℕ) → target o (fresh_cv p) ≡ p
target-fresh (fulfilled v) p = refl
target-fresh (rejected e) p = refl

module _ {S : Type 0} ⦃at : Place CvPromise S⦄ where
  -- The promise of the object is pending, and its handles are unused.
  pub record Armed (s : Store S) (p : ℕ) : Type 0 where
    pub here : cv_of s ≡ fresh_cv p
    pub quiet : Quiet s p
    pub undone : outcome (s.cell p) ≡ none
    pub unused : (s.cell p).rejected ≡ false

  -- The store with a new promise put in the place of the old one.
  rearmed : Store S → Store S
  rearmed s = with_cv (fresh_cv s.next) (made s)

  rearmed-cell : (s : Store S) → (rearmed s).cell s.next ≡ blank true false
  unfolding rearmed
  rearmed-cell s = made-cell s

  rearmed-old : (s : Store S) (p : ℕ) → p < s.next → (rearmed s).cell p ≡ s.cell p
  unfolding rearmed
  rearmed-old s p l = ground arith

  rearmed-next : (s : Store S) → (rearmed s).next ≡ suc s.next
  unfolding rearmed
  rearmed-next s = refl

  rearmed-Quiet : (s : Store S) (p : ℕ) → Quiet s p → Quiet (rearmed s) p
  rearmed-Quiet s p h = record {
    known = omega (arith, rearmed-next s, h.known);
    open_ = rw (rearmed-old s p h.known) h.open_;
    unread = rw (rearmed-old s p h.known) h.unread;
    idle = rw (rearmed-old s p h.known) h.idle;
  }

  pub woken : Store S → ℕ → Outcome → Store S
  woken s p o = reported o p (rearmed s)

  -- Either call: a new promise is put in place, then `o` is reported to the old one.
  abbrev signal : Outcome → Code S → Code S
  signal o k = Code.create λ p.
      Code.locked (at.put (fresh_cv p))
        λ x. report o (target o (at.get x)) (assert_done (at.get x).promise k)

  signal-Runs :
      (s : Store S) (p : ℕ) (o : Outcome) (w : Option ℕ) (k : Code S) (fs : List (Frame S))
      → Armed s p
      → Runs s
          (Frame.run w (signal o k) ∷ fs)
          (woken s p o)
          (Frame.loop p (s.cell p).awaiters ∷ Frame.run w (assert_done p k) ∷ fs)
  unfolding woken rearmed
  signal-Runs s p o w k fs h = Runs-trans (create-Runs s w _ fs) (
      next (step-locked (made s) w _ _ fs) (
        rw (h.here, target-fresh o p)
          (subst
            (λ c.
              Runs (rearmed s) (Frame.run w (report o p (assert_done p k)) ∷ fs) (woken s p o)
                (Frame.loop p c.awaiters ∷ Frame.run w (assert_done p k) ∷ fs))
            (rearmed-old s p h.quiet.known)
            (report-Runs (rearmed s) w o p (assert_done p k) fs (rearmed-Quiet s p h.quiet)
              (rw (rearmed-old s p h.quiet.known) h.unused)))))

  pub woken-outcome :
      (s : Store S) (p : ℕ) (o : Outcome) → Armed s p → outcome ((woken s p o).cell p) ≡ some o
  unfolding woken
  woken-outcome s p o h =
      reported-outcome o p (rearmed s) (rw (rearmed-old s p h.quiet.known) h.undone)

  woken-cell :
      (s : Store S) (p : ℕ) (o : Outcome)
      → p < s.next
      → (woken s p o).cell s.next ≡ blank true false
  unfolding woken
  woken-cell s p o l = reported-other o p s.next (rearmed s) (omega (arith, l)) ∙ rearmed-cell s

  woken-Armed : (s : Store S) (p : ℕ) (o : Outcome) → p < s.next → Armed (woken s p o) s.next
  unfolding woken rearmed
  woken-Armed s p o l = record {
    here = ap at.get (reported-shared o p (rearmed s)) ∙ at.get_put (fresh_cv s.next) s.shared;
    quiet = record {
      known = omega (arith, reported-next o p (rearmed s));
      open_ = rw (woken-cell s p o l);
      unread = rw (woken-cell s p o l);
      idle = rw (woken-cell s p o l);
    };
    undone = rw (woken-cell s p o l);
    unused = rw (woken-cell s p o l);
  }

  pub woken-other :
      (s : Store S) (p q : ℕ) (o : Outcome) → q < s.next → p ≢ q → (woken s p o).cell q ≡ s.cell q
  unfolding woken
  woken-other s p q o l n = reported-other o p q (rearmed s) n ∙ rearmed-old s q l

  pub woken-next : (s : Store S) (p : ℕ) (o : Outcome) → (woken s p o).next ≡ suc s.next
  unfolding woken
  woken-next s p o = reported-next o p (rearmed s) ∙ rearmed-next s

  pub woken-state :
      (s : Store S) (p : ℕ) (o : Outcome) → (woken s p o).shared ≡ at.put (fresh_cv s.next) s.shared
  unfolding woken rearmed
  woken-state s p o = reported-shared o p (rearmed s)

  pub reject-Runs :
      (s : Store S) (p : ℕ) (e : Exn) (w : Option ℕ) (k : Code S) (fs : List (Frame S))
      → Armed s p
      → Runs s
          (Frame.run w (reject_with e k) ∷ fs)
          (woken s p (rejected e))
          (Frame.loop p (s.cell p).awaiters ∷ Frame.run w (assert_done p k) ∷ fs)
  unfolding reject_with
  reject-Runs s p e w k fs h = signal-Runs s p (rejected e) w k fs h

  pub notify-Runs :
      (s : Store S) (p : ℕ) (w : Option ℕ) (k : Code S) (fs : List (Frame S))
      → Armed s p
      → Runs s
          (Frame.run w (notify k) ∷ fs)
          (woken s p (fulfilled void))
          (Frame.loop p (s.cell p).awaiters ∷ Frame.run w (assert_done p k) ∷ fs)
  unfolding notify
  notify-Runs s p w k fs h = signal-Runs s p (fulfilled void) w k fs h

  -- On a condition promise whose promise `p` is pending and unused, with any awaiters, `Notify`
  -- fulfils `p` and hands over the awaiters of `p` to be run before it goes on to its assertion; by
  -- then the object has a new promise, which is pending and unused and has no awaiters.
  pub notify_wakes :
      (s : Store S) (p : ℕ) (w : Option ℕ) (k : Code S) (fs : List (Frame S))
      → Armed s p
      → (s' : Store S) × Runs s
          (Frame.run w (notify k) ∷ fs)
          s'
          (Frame.loop p (s.cell p).awaiters ∷ Frame.run w (assert_done p k) ∷ fs)
        × (outcome (s'.cell p) ≡ some (fulfilled void))
        × Armed s' s.next
        × ((s'.cell s.next).awaiters ≡ [])
  notify_wakes s p w k fs h = (
    woken s p (fulfilled void),
    notify-Runs s p w k fs h,
    woken-outcome s p (fulfilled void) h,
    woken-Armed s p (fulfilled void) h.quiet.known,
    rw (woken-cell s p (fulfilled void) h.quiet.known),
  )

  -- On a condition promise whose promise `p` is pending and unused, with any awaiters, `Reject` with
  -- an exception rejects `p` with it and hands over the awaiters of `p` to be run before it goes on
  -- to its assertion; by then the object has a new promise, which is pending and unused and has no
  -- awaiters.
  pub reject_wakes :
      (s : Store S) (p : ℕ) (e : Exn) (w : Option ℕ) (k : Code S) (fs : List (Frame S))
      → Armed s p
      → (s' : Store S) × Runs s
          (Frame.run w (reject_with e k) ∷ fs)
          s'
          (Frame.loop p (s.cell p).awaiters ∷ Frame.run w (assert_done p k) ∷ fs)
        × (outcome (s'.cell p) ≡ some (rejected e))
        × Armed s' s.next
        × ((s'.cell s.next).awaiters ≡ [])
  reject_wakes s p e w k fs h = (
    woken s p (rejected e),
    reject-Runs s p e w k fs h,
    woken-outcome s p (rejected e) h,
    woken-Armed s p (rejected e) h.quiet.known,
    rw (woken-cell s p (rejected e) h.quiet.known),
  )

  -- On a condition promise whose promise `p` is pending and unused, with any awaiters, the destructor
  -- rejects `p` with `End` and hands over the awaiters of `p` to be run before it comes to its end.
  pub destroy_wakes :
      (s : Store S) (p : ℕ) (w : Option ℕ) (k : Code S) (fs : List (Frame S))
      → Armed s p
      → (s' : Store S) × Runs s
          (Frame.run w (destroy k) ∷ fs)
          s'
          (Frame.loop p (s.cell p).awaiters ∷ Frame.run w k ∷ fs)
        × (outcome (s'.cell p) ≡ some (rejected cv_end))
  unfolding destroy
  destroy_wakes s p w k fs h = (
    reported (rejected cv_end) p s,
    next (step-locked s w _ _ fs) (
        subst
          (λ m.
            Runs s (Frame.run w (Code.reject m.reject cv_end λ _. k) ∷ fs)
              (reported (rejected cv_end) p s)
              (Frame.loop p (s.cell p).awaiters ∷ Frame.run w k ∷ fs))
          (sym h.here) (report-Runs s w (rejected cv_end) p k fs h.quiet h.unused)),
    reported-outcome (rejected cv_end) p s h.undone,
  )

  -- The assertion of `Notify` and `Reject` holds once the promise is done.
  pub assert_done-Runs :
      (s : Store S) (p : ℕ) (o : Outcome) (w : Option ℕ) (k : Code S) (fs : List (Frame S))
      → p < s.next
      → outcome (s.cell p) ≡ some o
      → Runs s (Frame.run w (assert_done p k) ∷ fs) s (Frame.run w k ∷ fs)
  unfolding assert_done
  assert_done-Runs s p o w k fs l e = next (step-status s w p _ fs (lt→ltb p s.next l)) (rw e stop)
