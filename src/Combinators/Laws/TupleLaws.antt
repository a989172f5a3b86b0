-- ===== src/Combinators/Laws/TupleLaws.antt =====
-- `All` over a pack of promises that are done. include/promise/details/helpers.inl
use jspro_cpp.Prelude.{
  ℕ, ◌≤◌, ◌<◌, ◌≡◌, refl, ap, subst, ◌∙◌, Bool, true, false, Option, none, some, List, [], ◌∷◌,
  arith, lt→ltb,
}
use jspro_cpp.Runtime.Value.{Value, nil, Exn, Outcome, fulfilled, rejected}
use jspro_cpp.Runtime.Code.{Code}
use jspro_cpp.Runtime.Cell.{outcome}
use jspro_cpp.Runtime.Store.{Store}
use jspro_cpp.Machine.Exec.{Frame}
use jspro_cpp.Machine.Runs.{Runs, stop, next, Runs-trans, step-co_await}
use jspro_cpp.Machine.Settled.{reported-other, reported-next}
use jspro_cpp.Machine.Returns.{made, made_done, pure-Returns}
use jspro_cpp.Machine.Delivery.{made-other}
use jspro_cpp.Machine.Detached.{detached, step-detach, detached-other, detached-next}
use jspro_cpp.Combinators.Then.{then_move}
use jspro_cpp.Combinators.Race.{Racer}
use jspro_cpp.Combinators.Wrapper.{await_value}
use jspro_cpp.Combinators.AllTuple.{tuple_cat, tuple_of, as_tuple, tuple_arg, tuple_args}
use jspro_cpp.Combinators.Spec.{mapped, ThenResult, skipped, called}
use jspro_cpp.Combinators.Laws.ThenLaws.{then_done}
use jspro_cpp.Combinators.Laws.Tracked.{
  Usable, Usable-free, detached-Usable, made_done-Usable, made_done-new,
}

-- The first exception in the order of evaluation.
pub first_error : Bool → List Outcome → Option Exn
first_error in_order [] = none
first_error true (rejected e ∷ os) = some e
first_error true (fulfilled v ∷ os) = first_error true os
first_error false (o ∷ os) = elim (first_error false os) [
  | some e ↦ some e
  | none ↦ elim o [ rejected e ↦ some e | fulfilled v ↦ none ]
]

abbrev joined : Racer → Outcome → Value → Value
joined x (fulfilled y) v = tuple_cat (tuple_of x.is_void y) v
joined x (rejected e) v = nil

-- The values of the promises that are not of void, in the order of the arguments.
abbrev pub tuple_values : List Racer → List Outcome → Value
tuple_values (x ∷ xs) (o ∷ os) = joined x o (tuple_values xs os)
tuple_values _ _ = nil

abbrev settled_with : Option Exn → Value → Outcome
settled_with (some e) v = rejected e
settled_with none v = fulfilled v

pub tupled : Bool → List Racer → List Outcome → Outcome
tupled in_order xs os = settled_with (first_error in_order os) (tuple_values xs os)

module _ {S : Type 0} where
  abbrev pub answer : (Value → Code S) → Outcome → Code S
  answer k (fulfilled v) = k v
  answer k (rejected e) = Code.throw e

  -- Promises that are done stay so, and those that are not stay as they are.
  pub record Kept (s s' : Store S) : Type 0 where
    pub usable : (q : ℕ) (o : Outcome) → Usable s q o → Usable s' q o
    pub same : (q : ℕ) → q < s.next → outcome (s.cell q) ≡ none → s'.cell q ≡ s.cell q
    pub grown : s.next ≤ s'.next

  Kept-refl : (s : Store S) → Kept s s
  Kept-refl s = record { usable = λ q o u. u; same = λ q l e. refl; grown = omega arith }

  Kept-trans : (s s' s'' : Store S) → Kept s s' → Kept s' s'' → Kept s s''
  Kept-trans s s' s'' a b = record {
    usable = λ q o u. b.usable q o (a.usable q o u);
    same = λ q l e.
        b.same q (omega (arith, a.grown, l)) (ap outcome (a.same q l e) ∙ e) ∙ a.same q l e;
    grown = omega (arith, a.grown, b.grown);
  }

  -- The store after one argument was evaluated.
  argued : ℕ → Outcome → Store S → Store S
  argued p o s = detached p (made_done o s)

  argued-Kept : (s : Store S) (p : ℕ) (o x : Outcome) → Usable s p o → Kept s (argued p x s)
  unfolding argued
  argued-Kept s p o x u = record {
    usable = λ q o' h. detached-Usable (made_done x s) p q o' (made_done-Usable s x q o' h);
    same = λ q l e.
        detached-other (made_done x s) p q (λ i. ground (arith, u.done, e, i))
        ∙ reported-other x s.next q (made s) (omega (arith, l))
        ∙ made-other s q l;
    grown = omega (arith, detached-next (made_done x s) p, reported-next x s.next (made s));
  }

  as_tuple-result :
      (s : Store S) (b : Bool) (o : Outcome)
      → ThenResult s (λ v. Code.ret (tuple_of b v)) o s (mapped (tuple_of b) o)
  as_tuple-result s b (fulfilled v) = called (pure-Returns s (fulfilled (tuple_of b v)))
  as_tuple-result s b (rejected e) = skipped

  await-Runs :
      (s : Store S) (w : Option ℕ) (r : ℕ) (o : Outcome) (k : Value → Code S) (fs : List (Frame S))
      → Usable s r o
      → Runs s (Frame.run w (await_value r k) ∷ fs) s (Frame.run w (answer k o) ∷ fs)
  unfolding await_value
  await-Runs s w r (fulfilled v) k fs u =
      next (step-co_await s w r _ fs (fulfilled v) u.done (lt→ltb r s.next u.known)) stop
  await-Runs s w r (rejected e) k fs u =
      next (step-co_await s w r _ fs (rejected e) u.done (lt→ltb r s.next u.known)) stop

  arg-Runs :
      (s : Store S) (w : Option ℕ) (x : Racer) (o : Outcome) (k : Value → Code S)
      (fs : List (Frame S))
      → Usable s x.promise o
      → Runs s
          (Frame.run w (tuple_arg x k) ∷ fs)
          (argued x.promise (mapped (tuple_of x.is_void) o) s)
          (Frame.run w (answer k (mapped (tuple_of x.is_void) o)) ∷ fs)
  unfolding tuple_arg then_move as_tuple argued
  arg-Runs s w x o k fs u =
      let y = mapped (tuple_of x.is_void) o in
      Runs-trans
        (then_done s x.promise o x.is_void (λ v. Code.ret (tuple_of x.is_void v)) w
          (λ r. Code.detach x.promise (await_value r k)) fs s y u.done u.known u.unread
          (as_tuple-result s x.is_void o)).0
        (next
          (step-detach (made_done y s) w x.promise (await_value s.next k) fs
            (Usable-free (made_done y s) x.promise o (made_done-Usable s y x.promise o u)))
          (await-Runs (argued x.promise y s) w s.next y k fs
            (detached-Usable (made_done y s) x.promise s.next y (made_done-new s y))))

  -- The promises are done, with these outcomes, and no lock is kept on them.
  abbrev pub AllUsable : Store S → List Racer → List Outcome → Type 0
  AllUsable s [] [] = Unit {0}
  AllUsable s (x ∷ xs) (o ∷ os) = Usable s x.promise o × AllUsable s xs os
  AllUsable s _ _ = ⊥

  pub AllUsable-Kept :
      (s s' : Store S) (xs : List Racer) (os : List Outcome)
      → Kept s s'
      → AllUsable s xs os
      → AllUsable s' xs os
  AllUsable-Kept s s' [] [] k h = tt
  AllUsable-Kept s s' [] (o ∷ os) k h = h
  AllUsable-Kept s s' (x ∷ xs) [] k h = h
  AllUsable-Kept s s' (x ∷ xs) (o ∷ os) k h =
      (k.usable x.promise o h.0, AllUsable-Kept s s' xs os k h.1)

  answer-cat :
      (k : Value → Code S) (e : Option Exn) (u v : Value)
      → answer (λ w. k (tuple_cat u w)) (settled_with e v)
        ≡ answer k (settled_with e (tuple_cat u v))
  answer-cat k none u v = refl
  answer-cat k (some e) u v = refl

  -- The rest of an evaluation from a store: where it comes to, with what, and what it kept.
  abbrev pub Evaluates : Store S → Option ℕ → Code S → Code S → List (Frame S) → Type 0
  Evaluates s w c c' fs =
      (s' : Store S) × Runs s (Frame.run w c ∷ fs) s' (Frame.run w c' ∷ fs) × Kept s s'

  -- The first argument after the others, which came to an exception or to a tuple.
  last_arg :
      (e : Option Exn) (s : Store S) (w : Option ℕ) (x : Racer) (o : Outcome) (v : Value)
      (os : List Outcome) (k : Value → Code S) (fs : List (Frame S))
      → first_error false os ≡ e
      → Usable s x.promise o
      → Evaluates s w
          (answer (λ u. tuple_arg x λ y. k (tuple_cat y u)) (settled_with e v))
          (answer k (settled_with (first_error false (o ∷ os)) (joined x o v)))
          fs
  unfolding first_error
  last_arg (some e) s w x o v os k fs h u = (s, rw h stop, Kept-refl s)
  last_arg none s w x (fulfilled y) v os k fs h u = (
    argued x.promise (fulfilled (tuple_of x.is_void y)) s,
    rw h (arg-Runs s w x (fulfilled y) (λ z. k (tuple_cat z v)) fs u),
    argued-Kept s x.promise (fulfilled y) _ u,
  )
  last_arg none s w x (rejected e) v os k fs h u = (
    argued x.promise (rejected e) s,
    rw h (arg-Runs s w x (rejected e) (λ z. k (tuple_cat z v)) fs u),
    argued-Kept s x.promise (rejected e) _ u,
  )

  pub args-Runs :
      (in_order : Bool) (s : Store S) (w : Option ℕ) (xs : List Racer) (os : List Outcome)
      (k : Value → Code S) (fs : List (Frame S))
      → AllUsable s xs os
      → Evaluates s w (tuple_args in_order xs k) (answer k (tupled in_order xs os)) fs
  unfolding tuple_args tupled first_error
  args-Runs b s w [] [] k fs h = (s, stop, Kept-refl s)
  args-Runs b s w [] (o ∷ os) k fs h = absurd h
  args-Runs b s w (x ∷ xs) [] k fs h = absurd h
  args-Runs true s w (x ∷ xs) (rejected e ∷ os) k fs h = (
    argued x.promise (rejected e) s,
    arg-Runs s w x (rejected e) _ fs h.0,
    argued-Kept s x.promise (rejected e) _ h.0,
  )
  args-Runs true s w (x ∷ xs) (fulfilled y ∷ os) k fs h =
      let u = tuple_of x.is_void y in
      let s₁ = argued x.promise (fulfilled u) s in
      let kept = argued-Kept s x.promise (fulfilled y) (fulfilled u) h.0 in
      let (s', runs, kept') =
        args-Runs true s₁ w xs os (λ v. k (tuple_cat u v)) fs
          (AllUsable-Kept s s₁ xs os kept h.1) in
      (
        s',
        Runs-trans (arg-Runs s w x (fulfilled y) _ fs h.0) (
            subst
              (λ c.
                Runs s₁ (Frame.run w (tuple_args true xs (λ v. k (tuple_cat u v))) ∷ fs) s'
                  (Frame.run w c ∷ fs))
              (answer-cat k (first_error true os) u (tuple_values xs os)) runs),
        Kept-trans s s₁ s' kept kept',
      )
  args-Runs false s w (x ∷ xs) (o ∷ os) k fs h =
      let (s₁, runs, kept) =
        args-Runs false s w xs os (λ u. tuple_arg x λ y. k (tuple_cat y u)) fs h.1 in
      let (s', runs', kept') =
        last_arg (first_error false os) s₁ w x o (tuple_values xs os) os k fs refl
          (kept.usable x.promise o h.0) in
      (s', Runs-trans runs runs', Kept-trans s s₁ s' kept kept')
