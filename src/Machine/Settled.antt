-- ===== src/Machine/Settled.antt =====
-- The first call of `Resolve` or `Reject` on a promise, and what it leaves.
use jspro_cpp.Prelude.{
  ℕ, ◌≤◌, ◌<◌, ◌≡◌, ◌≢◌, refl, subst, ◌∙◌, Bool, true, false, Option, none, some, List, [], ◌∷◌,
  arith, lt→ltb, ==_refl,
}
use jspro_cpp.Runtime.Value.{Value, Exn, Outcome, fulfilled, rejected}
use jspro_cpp.Runtime.Code.{Code}
use jspro_cpp.Runtime.Cell.{Cell, outcome, settle, on_resolved}
use jspro_cpp.Runtime.Store.{Store, write, free}
use jspro_cpp.Machine.Exec.{Frame, exec, exec_code}
use jspro_cpp.Machine.Threads.{step}
use jspro_cpp.Machine.Runs.{Runs, stop, next}

module _ {S : Type 0} where
  -- A promise that can be settled: nobody was first, no lock is kept, no coroutine runs it.
  pub record Quiet (s : Store S) (r : ℕ) : Type 0 where
    pub known : r < s.next
    pub open_ : (s.cell r).resolved ≡ false
    pub unread : (s.cell r).readers ≡ 0
    pub idle : (s.cell r).running ≡ false

  pub same-Quiet :
      (s s' : Store S) (p : ℕ) → s.next ≤ s'.next → s'.cell p ≡ s.cell p → Quiet s p → Quiet s' p
  same-Quiet s s' p n e h = record {
    known = omega (arith, n, h.known);
    open_ = rw e h.open_;
    unread = rw e h.unread;
    idle = rw e h.idle;
  }

  abbrev pub claimed : ℕ → Store S → Store S
  claimed r s = write r (record (s.cell r) { resolved = true }) s

  -- The store after the first call of `Resolve` or `Reject`.
  pub settled : ℕ → Outcome → Store S → Store S
  settled r o s = write r (settle o ((claimed r s).cell r)).0 (claimed r s)

  claimed-cell :
      (r : ℕ) (s : Store S) → (claimed r s).cell r ≡ record (s.cell r) { resolved = true }
  claimed-cell r s = rw (==_refl r)

  settle-outcome : (o : Outcome) (c : Cell S) → outcome c ≡ none → outcome (settle o c).0 ≡ some o
  unfolding settle on_resolved
  settle-outcome (fulfilled v) c e = ground arith
  settle-outcome (rejected x) c e = ground arith

  settle-idle : (o : Outcome) (c : Cell S) → c.running ≡ false → (settle o c).1 ≡ c.awaiters
  unfolding settle on_resolved
  settle-idle (fulfilled v) c e = rw e
  settle-idle (rejected x) c e = rw e

  pub settled-outcome :
      (r : ℕ) (o : Outcome) (s : Store S)
      → outcome (s.cell r) ≡ none
      → outcome ((settled r o s).cell r) ≡ some o
  unfolding settled
  settled-outcome r o s e =
      rw (==_refl r) (settle-outcome o (record (s.cell r) { resolved = true }) e)

  settle-emptied : (o : Outcome) (c : Cell S) → c.running ≡ false → (settle o c).0.awaiters ≡ []
  unfolding settle on_resolved
  settle-emptied (fulfilled v) c e = rw e
  settle-emptied (rejected x) c e = rw e

  pub settled-emptied :
      (r : ℕ) (o : Outcome) (s : Store S)
      → (s.cell r).running ≡ false
      → ((settled r o s).cell r).awaiters ≡ []
  unfolding settled
  settled-emptied r o s e =
      rw (==_refl r) (settle-emptied o (record (s.cell r) { resolved = true }) e)

  pub settled-other :
      (r q : ℕ) (o : Outcome) (s : Store S) → r ≢ q → (settled r o s).cell q ≡ s.cell q
  unfolding settled
  settled-other r q o s n = ground arith

  pub settled-next : (r : ℕ) (o : Outcome) (s : Store S) → (settled r o s).next ≡ s.next
  unfolding settled
  settled-next r o s = refl

  pub settled-shared : (r : ℕ) (o : Outcome) (s : Store S) → (settled r o s).shared ≡ s.shared
  unfolding settled
  settled-shared r o s = refl

  step-settling :
      (s : Store S) (r : ℕ) (o : Outcome) (fs : List (Frame S))
      → free s r ≡ true
      → step s (Frame.settling r o ∷ fs)
        ≡ some (write r (settle o (s.cell r)).0 s, Frame.loop r (settle o (s.cell r)).1 ∷ fs)
  unfolding step exec
  step-settling s r o fs v = rw v

  -- The first settling wins, stores the outcome and goes on to the awaiters.
  pub settling-Runs :
      (s : Store S) (r : ℕ) (o : Outcome) (fs : List (Frame S))
      → Quiet s r
      → Runs
          (claimed r s)
          (Frame.settling r o ∷ fs)
          (settled r o s)
          (Frame.loop r (s.cell r).awaiters ∷ fs)
  unfolding settled
  settling-Runs s r o fs h =
      subst
        (λ as'.
          Runs (claimed r s) (Frame.settling r o ∷ fs)
            (write r (settle o ((claimed r s).cell r)).0 (claimed r s)) (Frame.loop r as' ∷ fs))
        idle (next (step-settling (claimed r s) r o fs free_) stop)
    where
      free_ : free (claimed r s) r ≡ true
      free_ = ground (arith, h.known, h.unread)

      idle : (settle o ((claimed r s).cell r)).1 ≡ (s.cell r).awaiters
      idle = rw (claimed-cell r s) (settle-idle o (record (s.cell r) { resolved = true }) h.idle)

  step-resolve :
      (s : Store S) (w : Option ℕ) (r : ℕ) (v : Value) (k : Bool → Code S) (fs : List (Frame S))
      → Quiet s r
      → step s (Frame.run w (Code.resolve r v k) ∷ fs)
        ≡ some (claimed r s, Frame.settling r (fulfilled v) ∷ Frame.run w (k true) ∷ fs)
  unfolding step exec exec_code
  step-resolve s w r v k fs h = rw (lt→ltb r s.next h.known, h.open_)

  -- `(*resolve)(v)` and `(*reject)(e)` on a promise that nobody has settled.
  pub resolve-Runs :
      (s : Store S) (w : Option ℕ) (r : ℕ) (v : Value) (k : Bool → Code S) (fs : List (Frame S))
      → Quiet s r
      → Runs s
          (Frame.run w (Code.resolve r v k) ∷ fs)
          (settled r (fulfilled v) s)
          (Frame.loop r (s.cell r).awaiters ∷ Frame.run w (k true) ∷ fs)
  resolve-Runs s w r v k fs h =
      next (step-resolve s w r v k fs h) (settling-Runs s r (fulfilled v) _ h)

  abbrev pub refused : ℕ → Store S → Store S
  refused r s = write r (record (s.cell r) { rejected = true }) s

  refused-Quiet : (s : Store S) (r : ℕ) → Quiet s r → Quiet (refused r s) r
  refused-Quiet s r h = record {
    known = h.known;
    open_ = rw (==_refl r) h.open_;
    unread = rw (==_refl r) h.unread;
    idle = rw (==_refl r) h.idle;
  }

  -- What the promise `r` is left with when `o` is reported to it through its handles.
  pub reported : Outcome → ℕ → Store S → Store S
  reported (fulfilled v) r s = settled r (fulfilled v) s
  reported (rejected e) r s = settled r (rejected e) (refused r s)

  pub step-reject :
      (s : Store S) (w : Option ℕ) (r : ℕ) (e : Exn) (k : Bool → Code S) (fs : List (Frame S))
      → r < s.next
      → (s.cell r).rejected ≡ false
      → step s (Frame.run w (Code.reject r e k) ∷ fs)
        ≡ some (refused r s, Frame.run w (Code.resolver_reject r e k) ∷ fs)
  unfolding step exec exec_code
  step-reject s w r e k fs h n = rw (lt→ltb r s.next h, n)

  step-resolver_reject :
      (s : Store S) (w : Option ℕ) (r : ℕ) (e : Exn) (k : Bool → Code S) (fs : List (Frame S))
      → Quiet s r
      → step s (Frame.run w (Code.resolver_reject r e k) ∷ fs)
        ≡ some (claimed r s, Frame.settling r (rejected e) ∷ Frame.run w (k true) ∷ fs)
  unfolding step exec exec_code
  step-resolver_reject s w r e k fs h = rw (lt→ltb r s.next h.known, h.open_)

  -- The call that reports an outcome through a handle.
  abbrev pub report : Outcome → ℕ → Code S → Code S
  report (fulfilled v) r k = Code.resolve r v λ _. k
  report (rejected e) r k = Code.reject r e λ _. k

  pub report-Runs :
      (s : Store S) (w : Option ℕ) (o : Outcome) (r : ℕ) (k : Code S) (fs : List (Frame S))
      → Quiet s r
      → (s.cell r).rejected ≡ false
      → Runs s
          (Frame.run w (report o r k) ∷ fs)
          (reported o r s)
          (Frame.loop r (s.cell r).awaiters ∷ Frame.run w k ∷ fs)
  unfolding reported
  report-Runs s w (fulfilled v) r k fs h n = resolve-Runs s w r v (λ _. k) fs h
  report-Runs s w (rejected e) r k fs h n = next (step-reject s w r e (λ _. k) fs h.known n) (
      next (step-resolver_reject (refused r s) w r e (λ _. k) fs (refused-Quiet s r h)) (
        subst
          (λ as'.
            Runs (claimed r (refused r s)) (Frame.settling r (rejected e) ∷ Frame.run w k ∷ fs)
              (settled r (rejected e) (refused r s)) (Frame.loop r as' ∷ Frame.run w k ∷ fs))
          same (settling-Runs (refused r s) r (rejected e) _ (refused-Quiet s r h))))
    where
      same : ((refused r s).cell r).awaiters ≡ (s.cell r).awaiters
      same = rw (==_refl r)

  pub reported-outcome :
      (o : Outcome) (r : ℕ) (s : Store S)
      → outcome (s.cell r) ≡ none
      → outcome ((reported o r s).cell r) ≡ some o
  unfolding reported
  reported-outcome (fulfilled v) r s e = settled-outcome r (fulfilled v) s e
  reported-outcome (rejected x) r s e =
      settled-outcome r (rejected x) (refused r s) (rw (==_refl r) e)

  pub reported-other :
      (o : Outcome) (r q : ℕ) (s : Store S) → r ≢ q → (reported o r s).cell q ≡ s.cell q
  unfolding reported
  reported-other (fulfilled v) r q s n = settled-other r q (fulfilled v) s n
  reported-other (rejected x) r q s n =
      settled-other r q (rejected x) (refused r s) n ∙ ground arith

  pub reported-shared : (o : Outcome) (r : ℕ) (s : Store S) → (reported o r s).shared ≡ s.shared
  unfolding reported settled
  reported-shared (fulfilled v) r s = refl
  reported-shared (rejected e) r s = refl

  pub reported-next : (o : Outcome) (r : ℕ) (s : Store S) → (reported o r s).next ≡ s.next
  unfolding reported settled
  reported-next (fulfilled v) r s = refl
  reported-next (rejected e) r s = refl

  settle-readers : (o : Outcome) (c : Cell S) → (settle o c).0.readers ≡ c.readers
  unfolding settle on_resolved
  settle-readers (fulfilled v) c = ground arith
  settle-readers (rejected e) c = ground arith

  pub settled-readers :
      (r : ℕ) (o : Outcome) (s : Store S) (p : ℕ)
      → ((settled r o s).cell p).readers ≡ (s.cell p).readers
  unfolding settled
  settled-readers r o s p = ground (arith, settle-readers o ((claimed r s).cell r))

  pub reported-readers :
      (o : Outcome) (r : ℕ) (s : Store S) (p : ℕ)
      → ((reported o r s).cell p).readers ≡ (s.cell p).readers
  unfolding reported
  reported-readers (fulfilled v) r s p = settled-readers r (fulfilled v) s p
  reported-readers (rejected e) r s p =
      settled-readers r (rejected e) (refused r s) p ∙ ground arith
