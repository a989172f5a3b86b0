-- ===== src/Machine/Coroutine.antt =====
-- The end of a coroutine: its promise is settled, its handle goes, and only then do the awaiters
-- run. include/promise/details/Handle.inl
use jspro_cpp.Prelude.{
  ℕ, suc, ◌≡◌, ◌≢◌, refl, sym, ap, subst, ◌∙◌, Bool, true, false, none, some, List, [], ◌∷◌, arith,
  ==_refl,
}
use jspro_cpp.Runtime.Value.{Value, Outcome, fulfilled, rejected}
use jspro_cpp.Runtime.Code.{Code}
use jspro_cpp.Runtime.Cell.{Cell, outcome, store_outcome, settle, release_handle}
use jspro_cpp.Runtime.Store.{Store, write, free}
use jspro_cpp.Machine.Unsettled.{
  Running, Unsettled, claim, outcome-stored, readers-stored, release-stored, settle-running,
  step-attempt, step-finish, step-return, step-settling, stored,
}
use jspro_cpp.Machine.Exec.{Frame, exec, exec_code, leave, final_suspend}
use jspro_cpp.Machine.Threads.{step}
use jspro_cpp.Machine.Runs.{Runs, stop, next, Runs-trans, step-loop_end}
use jspro_cpp.Machine.Returns.{pure}

module _ {S : Type 0} where
  -- The store after a coroutine has ended with an outcome.
  pub ended : ℕ → Outcome → Store S → Store S
  ended q o s = let s₂ = stored q o (claim q s) in write q (release_handle (s₂.cell q)).0 s₂

  module _ {b : Bool} (s : Store S) (q : ℕ) (o : Outcome) (h : Unsettled b s q) where
    abbrev first : Cell S
    first = record (s.cell q) { resolved = true }

    claim-cell : (claim q s).cell q ≡ first
    unfolding claim
    claim-cell = rw (==_refl q)

    stored-cell : (stored q o (claim q s)).cell q ≡ store_outcome o first
    unfolding stored
    stored-cell = rw (==_refl q, claim-cell) (ap (λ x. x.0) (settle-running o first h.runs))

    quiet : settle o ((claim q s).cell q) ≡ (store_outcome o first, [])
    quiet = rw claim-cell (settle-running o first h.runs)

    free-claim : free (claim q s) q ≡ true
    unfolding claim
    free-claim = ground (arith, h.known, h.unread)

    stored-next : (stored q o (claim q s)).next ≡ s.next
    unfolding stored claim
    stored-next = refl

    free-stored : free (stored q o (claim q s)) q ≡ true
    free-stored = ground (
      arith,
      stored-next,
      ap (λ c. c.readers) stored-cell,
      readers-stored o first,
      h.known,
      h.unread,
    )

    settling_end :
        (fs : List (Frame S))
        → Runs (claim q s) (Frame.settling q o ∷ fs) (stored q o (claim q s)) fs
    settling_end fs = next (step-settling (claim q s) q o fs free-claim) (
        subst (λ x. Runs (stored q o (claim q s)) (Frame.loop q x ∷ fs) (stored q o (claim q s)) fs)
          (ap (λ x. x.1) (sym quiet)) (next (step-loop_end _ q fs) stop))

    finish_end :
        (fs : List (Frame S))
        → Runs
            (stored q o (claim q s))
            (Frame.finish q ∷ fs)
            (ended q o s)
            (Frame.loop q (s.cell q).awaiters ∷ fs)
    unfolding ended
    finish_end fs =
        subst
          (λ x.
            Runs (stored q o (claim q s)) (Frame.finish q ∷ fs) (ended q o s) (Frame.loop q x ∷ fs))
          released (next (step-finish _ q fs free-stored) stop)
      where
        released : (release_handle ((stored q o (claim q s)).cell q)).1 ≡ (s.cell q).awaiters
        released = rw stored-cell (ap (λ x. x.1) (release-stored o first))

    ended-cell : (ended q o s).cell q ≡ record (store_outcome o first) {
      running = false;
      awaiters = [];
      self_owned = false;
      notified = suc (suc first.notified);
    }
    unfolding ended
    ended-cell = rw (==_refl q, stored-cell) (ap (λ x. x.0) (release-stored o first))

    pub ended-outcome : outcome (s.cell q) ≡ none → outcome ((ended q o s).cell q) ≡ some o
    ended-outcome e = rw ended-cell (outcome-stored o first e)

    pub ended-running : ((ended q o s).cell q).running ≡ false
    ended-running = rw ended-cell refl

    pub ended-other : (p : ℕ) → q ≢ p → (ended q o s).cell p ≡ s.cell p
    unfolding ended stored claim
    ended-other p n = ground arith

    pub ended-next : (ended q o s).next ≡ s.next
    unfolding ended stored claim
    ended-next = refl

    pub ended-shared : (ended q o s).shared ≡ s.shared
    unfolding ended stored claim
    ended-shared = refl

    pub ended-readers : ((ended q o s).cell q).readers ≡ (s.cell q).readers
    ended-readers = rw ended-cell (readers-stored o first)

  resolver-stored : (o : Outcome) (c : Cell S) → (store_outcome o c).with_resolver ≡ c.with_resolver
  resolver-stored (fulfilled v) c = refl
  resolver-stored (rejected x) c = refl

  module _ (s : Store S) (q : ℕ) (o : Outcome) where
    pub end-Runs :
        Running s q
        → (fs : List (Frame S))
        → Runs s
            (Frame.run (some q) (pure o) ∷ fs)
            (ended q o s)
            (Frame.loop q (s.cell q).awaiters ∷ fs)
    end-Runs h fs = next (step-return s q o fs h.direct) (
        next (step-attempt s q o (Frame.finish q ∷ fs) h.known h.open_)
          (Runs-trans (settling_end s q o h (Frame.finish q ∷ fs)) (finish_end s q o h fs)))

    -- When a coroutine that returns values itself, whose promise `q` has no outcome and is settled
    -- by nobody else, returns or throws `o`, it comes to a store in which `q` has the outcome `o`,
    -- its coroutine does not run any more, no awaiter is left on it, and every other promise is as
    -- it was. Only then does it hand over all awaiters of `q`, in their order, to be run: none of
    -- them runs before.
    pub coroutine_end :
        Running s q
        → outcome (s.cell q) ≡ none
        → (fs : List (Frame S))
        → (s' : Store S) × Runs s
            (Frame.run (some q) (pure o) ∷ fs)
            s'
            (Frame.loop q (s.cell q).awaiters ∷ fs)
          × (outcome (s'.cell q) ≡ some o)
          × ((s'.cell q).running ≡ false)
          × ((s'.cell q).awaiters ≡ [])
          × ((p : ℕ) → q ≢ p → s'.cell p ≡ s.cell p)
    coroutine_end h undone fs = (
      ended q o s,
      end-Runs h fs,
      ended-outcome s q o h undone,
      ended-running s q o h,
      rw (ended-cell s q o h) refl,
      ended-other s q o h,
    )

    step-return_void :
        (t : Store S) (v : Value) (fs : List (Frame S))
        → (t.cell q).with_resolver ≡ true
        → step t (Frame.run (some q) (Code.ret v) ∷ fs) ≡ some (t, Frame.finish q ∷ fs)
    unfolding step exec exec_code leave final_suspend
    step-return_void t v fs d = rw (d, final_suspend) refl

    -- A coroutine of a resolver promise that has won the exchange on its own promise, and returns.
    pub resolver_end :
        Unsettled true s q
        → (v : Value) (fs : List (Frame S))
        → Runs
            (claim q s)
            (Frame.settling q o ∷ Frame.run (some q) (Code.ret v) ∷ fs)
            (ended q o s)
            (Frame.loop q (s.cell q).awaiters ∷ fs)
    resolver_end h v fs = Runs-trans (settling_end s q o h (Frame.run (some q) (Code.ret v) ∷ fs)) (
        next
          (step-return_void (stored q o (claim q s)) v fs (
            ap (λ c. c.with_resolver) (stored-cell s q o h)
            ∙ resolver-stored o (first s q o h)
            ∙ h.direct))
          (finish_end s q o h fs))
