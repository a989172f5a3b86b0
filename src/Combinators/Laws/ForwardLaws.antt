-- ===== src/Combinators/Laws/ForwardLaws.antt =====
-- The chain that hands the outcome of a continuation's promise on to the promise that `Then`
-- returned. include/promise/details/Promise.inl
use jspro_cpp.Prelude.{ℕ, ◌≤◌, ◌<◌, ◌≡◌, ◌≢◌, refl, sym, Option, some, List, ◌∷◌, arith}
use jspro_cpp.Runtime.Value.{Value, void, Exn, Outcome, fulfilled, rejected}
use jspro_cpp.Runtime.Code.{Code, try_catch}
use jspro_cpp.Runtime.Cell.{outcome}
use jspro_cpp.Runtime.Store.{Store}
use jspro_cpp.Machine.Exec.{Frame}
use jspro_cpp.Machine.Runs.{Runs, stop, next, Runs-trans, step-on_done_or_create}
use jspro_cpp.Machine.Settled.{reported, report, reported-other, reported-next}
use jspro_cpp.Machine.Returns.{made, made_done, make_done-Runs, report_alone-Runs}
use jspro_cpp.Machine.Detached.{detached, step-detach}
use jspro_cpp.Combinators.Fun.{
  forward, resolving, then_plain, then_now, resolve_new, reject_new, catch_void, catch_void_body,
  done_void,
}
use jspro_cpp.Combinators.Chain.{early}
use jspro_cpp.Combinators.Laws.Tracked.{
  Usable, Waits, Usable-free, apart, made-Usable, reported-Usable, detached-Usable, settled-Usable,
  made-Waits, new-Waits, reported-Waits, detached-Waits, made_done-Usable, made_done-new,
  made_done-Waits,
}
use jspro_cpp.Combinators.Laws.Spared.{
  Spared, Spared-trans, made-Spared, reported-Spared, detached-Spared, made_done-Spared,
}

module _ {S : Type 0} where
  released :
      (s : Store S) (w : Option ℕ) (a b : ℕ) (oa ob : Outcome) (k : Code S) (fs : List (Frame S))
      → Usable s a oa
      → Usable s b ob
      → Runs s
          (Frame.run w (Code.detach a (Code.detach b k)) ∷ fs)
          (detached b (detached a s))
          (Frame.run w k ∷ fs)
  released s w a b oa ob k fs ha hb = next (step-detach s w a _ fs (Usable-free s a oa ha)) (
      next
        (step-detach (detached a s) w b k fs
          (Usable-free (detached a s) b ob (detached-Usable s a b ob hb)))
        stop)

  report-Waits :
      (s : Store S) (w : Option ℕ) (o : Outcome) (r : ℕ) (k : Code S) (fs : List (Frame S))
      → Waits s r
      → Runs s (Frame.run w (report o r k) ∷ fs) (reported o r s) (Frame.run w k ∷ fs)
  report-Waits s w o r k fs h =
      report_alone-Runs s w o r k fs h.pending.quiet h.unused h.pending.alone

  caught_value :
      (s : Store S) (w : Option ℕ) (p : ℕ) (v : Value) (h : Exn → Code S) (k : ℕ → Code S)
      (fs : List (Frame S))
      → Usable s p (fulfilled v)
      → Runs s
          (Frame.run w (catch_void p h k) ∷ fs)
          (reported (fulfilled v) s.next (made s))
          (Frame.run w (k s.next) ∷ fs)
  unfolding catch_void catch_void_body
  caught_value s w p v h k fs u =
      early s p (fulfilled v) w _ (λ r o. catch_void_body h r o (k r)) k fs (made s) (fulfilled v)
        u.done u.known u.unread stop (record { same = refl; grown = omega arith })

  caught_exception :
      (s : Store S) (w : Option ℕ) (p r : ℕ) (e : Exn) (k : ℕ → Code S) (fs : List (Frame S))
      → Usable s p (rejected e)
      → Waits s r
      → Runs s
          (Frame.run w (catch_void p (λ e. Code.reject r e λ _. done_void) k) ∷ fs)
          (reported (fulfilled void) s.next (reported (rejected e) r (made s)))
          (Frame.run w (k s.next) ∷ fs)
  unfolding catch_void catch_void_body try_catch
  caught_exception s w p r e k fs u h =
      early s p (rejected e) w _
        (λ r' o. catch_void_body (λ e. Code.reject r e λ _. done_void) r' o (k r')) k fs
        (reported (rejected e) r (made s)) (fulfilled void) u.done u.known u.unread
        (report-Waits (made s) w (rejected e) r _ fs (made-Waits s r h))
        (record {
          same =
              reported-other (rejected e) r s.next (made s) (omega (arith, h.pending.quiet.known));
          grown = omega (arith, reported-next (rejected e) r (made s));
        })

  -- The rest of the chain, once `Then` on the continuation's promise has returned `p`.
  abbrev rest : ℕ → ℕ → Code S → ℕ → Code S
  rest q r k p =
      Code.detach q
        (catch_void p (λ e. Code.reject r e λ _. done_void) λ p'. Code.detach p (Code.detach p' k))

  module _ (s : Store S) (w : Option ℕ) (b q p r : ℕ) (o : Outcome) (k : Code S)
      (fs : List (Frame S)) where
    known : (s₁ : Store S) → p < s₁.next → b ≤ p → b ≤ s₁.next
    known s₁ i l = omega (arith, i, l)

    released-Spared :
        (s₁ : Store S) (p' : ℕ) → b ≤ p → b ≤ p' → Spared b q r s₁ (detached p' (detached p s₁))
    released-Spared s₁ p' l l' =
        Spared-trans (detached-Spared s₁ p (λ x i _ _ e. omega (arith, l, i, e)))
          (detached-Spared (detached p s₁) p' (λ x i _ _ e. omega (arith, l', i, e)))

    rest_value :
        (b ≤ p)
        → Usable s q o
        → Usable s p (fulfilled void)
        → Usable s r o
        → (s' : Store S) × Runs s (Frame.run w (rest q r k p) ∷ fs) s' (Frame.run w k ∷ fs)
          × Usable s' r o
          × Spared b q r s s'
    rest_value l hq hp hr =
        let s₁ = detached q s in
        let s₂ = made_done (fulfilled void) s₁ in
        let p₁ = detached-Usable s q p (fulfilled void) hp in
        let r₂ = made_done-Usable s₁ (fulfilled void) r o (detached-Usable s q r o hr) in
        (
          detached s₁.next (detached p s₂),
          next (step-detach s w q _ fs (Usable-free s q o hq)) (
              Runs-trans (caught_value s₁ w p void _ _ fs p₁) (
                released s₂ w p s₁.next (fulfilled void) (fulfilled void) k fs
                  (made_done-Usable s₁ (fulfilled void) p (fulfilled void) p₁)
                  (made_done-new s₁ (fulfilled void)))),
          detached-Usable _ s₁.next r o (detached-Usable s₂ p r o r₂),
          Spared-trans (detached-Spared s q (λ x _ n _. n)) (
              Spared-trans (made_done-Spared s₁ (fulfilled void) (known s₁ p₁.known l))
                (released-Spared s₂ s₁.next l (known s₁ p₁.known l))),
        )

    rest_exception :
        (e : Exn)
        → (b ≤ p)
        → Usable s q o
        → Usable s p (rejected e)
        → Waits s r
        → (s' : Store S) × Runs s (Frame.run w (rest q r k p) ∷ fs) s' (Frame.run w k ∷ fs)
          × Usable s' r (rejected e)
          × Spared b q r s s'
    rest_exception e l hq hp hr =
        let s₁ = detached q s in
        let s₂ = reported (rejected e) r (made s₁) in
        let s₃ = reported (fulfilled void) s₁.next s₂ in
        let n = apart s q r o hq hr in
        let p₁ = detached-Usable s q p (rejected e) hp in
        let r₁ = detached-Waits s q r (λ x. n (sym x)) hr in
        let m : r ≢ s₁.next = omega (arith, r₁.pending.quiet.known) in
        let r₃ =
          reported-Usable s₂ (fulfilled void) s₁.next r (rejected e) (λ x. m (sym x))
            (settled-Usable (made s₁) (rejected e) r (made-Waits s₁ r r₁)) in
        let p₃ =
          reported-Usable s₂ (fulfilled void) s₁.next p (rejected e) (omega (arith, p₁.known)) (
            reported-Usable (made s₁) (rejected e) r p (rejected e)
              (apart s₁ p r (rejected e) p₁ r₁) (made-Usable s₁ p (rejected e) p₁)) in
        (
          detached s₁.next (detached p s₃),
          next (step-detach s w q _ fs (Usable-free s q o hq)) (
              Runs-trans (caught_exception s₁ w p r e _ fs p₁ r₁) (
                released s₃ w p s₁.next (rejected e) (fulfilled void) k fs p₃ (
                  settled-Usable s₂ (fulfilled void) s₁.next
                    (reported-Waits (made s₁) (rejected e) r s₁.next m (new-Waits s₁))))),
          detached-Usable _ s₁.next r (rejected e) (detached-Usable s₃ p r (rejected e) r₃),
          Spared-trans (detached-Spared s q (λ x _ n _. n)) (
              Spared-trans (made-Spared s₁ (known s₁ p₁.known l)) (
                Spared-trans (reported-Spared (made s₁) (rejected e) r (λ x _ _ n. n)) (
                  Spared-trans
                    (reported-Spared s₂ (fulfilled void) s₁.next
                      (λ x i _ _ e'. omega (arith, known s₁ p₁.known l, i, e')))
                    (released-Spared s₃ s₁.next l (known s₁ p₁.known l))))),
        )

  -- A continuation's promise `q` is done with `o`, with no lock kept on it, and `r` is pending, with
  -- no awaiters and its handles unused. The chain that `Then` and `Catch` leave behind a
  -- promise-returning continuation comes to its end, and `r` is done with `o`, value or exception. Of
  -- the promises that there were only `q` and `r` have changed, and the shared state has not.
  pub forward_done :
      (s : Store S) (w : Option ℕ) (q r : ℕ) (o : Outcome) (k : Code S) (fs : List (Frame S))
      → Usable s q o
      → Waits s r
      → (s' : Store S) × Runs s
          (Frame.run w (forward q (resolving r) r k) ∷ fs)
          s'
          (Frame.run w k ∷ fs)
        × (outcome (s'.cell r) ≡ some o)
        × Spared s.next q r s s'
  unfolding forward then_plain then_now resolve_new reject_new try_catch
  forward_done s w q r (fulfilled v) k fs hq hr =
      let o = fulfilled v in
      let s₁ = reported o r s in
      let q₁ = reported-Usable s o r q o (apart s q r o hq hr) hq in
      let (s', runs, done, spared) =
        rest_value (made_done (fulfilled void) s₁) w s.next q s₁.next r o k fs
          (omega (arith, reported-next o r s)) (made_done-Usable s₁ (fulfilled void) q o q₁)
          (made_done-new s₁ (fulfilled void))
          (made_done-Usable s₁ (fulfilled void) r o (settled-Usable s o r hr)) in
      (
        s',
        next (step-on_done_or_create s w q _ _ (rest q r k) fs o hq.done (Usable-free s q o hq)) (
            Runs-trans (report-Waits s w o r _ fs hr)
              (Runs-trans (make_done-Runs s₁ w (fulfilled void) (rest q r k) fs) runs)),
        done.done,
        Spared-trans (reported-Spared s o r (λ x _ _ n. n)) (
            Spared-trans (made_done-Spared s₁ (fulfilled void) (omega (arith, reported-next o r s)))
              spared),
      )
  forward_done s w q r (rejected e) k fs hq hr =
      let o = rejected e in
      let (s', runs, done, spared) =
        rest_exception (made_done o s) w s.next q s.next r o k fs e (omega arith)
          (made_done-Usable s o q o hq) (made_done-new s o) (made_done-Waits s o r hr) in
      (
        s',
        next (step-on_done_or_create s w q _ _ (rest q r k) fs o hq.done (Usable-free s q o hq))
            (Runs-trans (make_done-Runs s w o (rest q r k) fs) runs),
        done.done,
        Spared-trans (made_done-Spared s o (omega arith)) spared,
      )
