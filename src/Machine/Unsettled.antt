-- ===== src/Machine/Unsettled.antt =====
-- A coroutine whose promise nobody has settled: how it starts, and its single steps at its end.
-- include/promise/details/Handle.inl
use jspro_cpp.Prelude.{
  ℕ, suc, ◌<◌, ◌≡◌, refl, Bool, true, false, Option, none, some, List, [], ◌∷◌, arith, lt→ltb,
  ==_refl,
}
use jspro_cpp.Runtime.Value.{Outcome, fulfilled, rejected}
use jspro_cpp.Runtime.Code.{Code}
use jspro_cpp.Runtime.Cell.{
  Cell, blank, outcome, store_outcome, settle, on_resolved, release_handle,
}
use jspro_cpp.Runtime.Store.{Store, write, alloc, free}
use jspro_cpp.Machine.Exec.{Frame, exec, exec_code, leave, final_suspend}
use jspro_cpp.Machine.Threads.{step}
use jspro_cpp.Machine.Returns.{pure}

module _ {S : Type 0} where
  -- A coroutine whose promise nobody has settled: of a resolver promise, or one that returns values.
  pub record Unsettled (resolver : Bool) (s : Store S) (q : ℕ) : Type 0 where
    pub known : q < s.next
    pub open_ : (s.cell q).resolved ≡ false
    pub unread : (s.cell q).readers ≡ 0
    pub runs : (s.cell q).running ≡ true
    pub direct : (s.cell q).with_resolver ≡ resolver

  abbrev pub Running : Store S → ℕ → Type 0
  Running s q = Unsettled false s q

  -- The store with a coroutine that has just been made.
  abbrev pub started : Store S → Store S
  started s = alloc (blank false true) s

  pub started-Running : (s : Store S) → Running (started s) s.next
  started-Running s = record {
    known = omega arith;
    open_ = rw (==_refl s.next);
    unread = rw (==_refl s.next);
    runs = rw (==_refl s.next);
    direct = rw (==_refl s.next);
  }

  pub step-start :
      (s : Store S) (w : Option ℕ) (b k : ℕ → Code S) (fs : List (Frame S))
      → step s (Frame.run w (Code.start false b k) ∷ fs)
        ≡ some (started s, Frame.run (some s.next) (b s.next) ∷ Frame.run w (k s.next) ∷ fs)
  unfolding step exec exec_code
  step-start s w b k fs = refl

  unfoldable pub claim : ℕ → Store S → Store S
  claim q s = write q (record (s.cell q) { resolved = true }) s

  unfoldable pub stored : ℕ → Outcome → Store S → Store S
  stored q o s = write q (settle o (s.cell q)).0 s

  pub step-return :
      (s : Store S) (q : ℕ) (o : Outcome) (fs : List (Frame S))
      → (s.cell q).with_resolver ≡ false
      → step s (Frame.run (some q) (pure o) ∷ fs)
        ≡ some (s, Frame.attempt q o ∷ Frame.finish q ∷ fs)
  unfolding step exec exec_code leave final_suspend
  step-return s q (fulfilled v) fs d = rw (d, final_suspend)
  step-return s q (rejected e) fs d = refl

  pub step-attempt :
      (s : Store S) (q : ℕ) (o : Outcome) (fs : List (Frame S))
      → q < s.next
      → (s.cell q).resolved ≡ false
      → step s (Frame.attempt q o ∷ fs) ≡ some (claim q s, Frame.settling q o ∷ fs)
  unfolding step exec claim
  step-attempt s q o fs v n = rw (lt→ltb q s.next v, n)

  pub step-settling :
      (s : Store S) (q : ℕ) (o : Outcome) (fs : List (Frame S))
      → free s q ≡ true
      → step s (Frame.settling q o ∷ fs)
        ≡ some (stored q o s, Frame.loop q (settle o (s.cell q)).1 ∷ fs)
  unfolding step exec stored
  step-settling s q o fs v = rw v

  pub step-finish :
      (s : Store S) (q : ℕ) (fs : List (Frame S))
      → free s q ≡ true
      → step s (Frame.finish q ∷ fs)
        ≡ some (
          write q (release_handle (s.cell q)).0 s,
          Frame.loop q (release_handle (s.cell q)).1 ∷ fs,
        )
  unfolding step exec
  step-finish s q fs v = rw v

  pub settle-running :
      (o : Outcome) (c : Cell S) → c.running ≡ true → settle o c ≡ (store_outcome o c, [])
  unfolding settle on_resolved
  settle-running (fulfilled v) c e = rw e
  settle-running (rejected x) c e = rw e

  pub release-stored :
      (o : Outcome) (c : Cell S)
      → release_handle (store_outcome o c) ≡ (
        record (store_outcome o c) {
          running = false;
          awaiters = [];
          self_owned = false;
          notified = suc (suc c.notified);
        },
        c.awaiters,
      )
  unfolding release_handle on_resolved
  release-stored (fulfilled v) c = refl
  release-stored (rejected x) c = ground arith

  pub readers-stored : (o' : Outcome) (c : Cell S) → (store_outcome o' c).readers ≡ c.readers
  readers-stored (fulfilled v) c = refl
  readers-stored (rejected x) c = refl

  pub outcome-stored :
      (o : Outcome) (c : Cell S)
      → outcome c ≡ none
      → outcome (record (store_outcome o c) {
        running = false;
        awaiters = [];
        self_owned = false;
        notified = suc (suc c.notified);
      })
        ≡ some o
  outcome-stored (fulfilled v) c e = ground arith
  outcome-stored (rejected x) c e = ground arith
