-- ===== src/Combinators/Laws/RaceLaws.antt =====
-- `Race` over promises of which the first is done. include/promise/details/Promise.inl, helpers.inl
use jspro_cpp.Prelude.{
  ℕ, suc, ◌<◌, ◌≡◌, refl, ap, ◌∙◌, Bool, true, Option, some, List, [], ◌∷◌, arith, lt→ltb, All,
  All-map,
}
use jspro_cpp.Runtime.Value.{Value, Outcome, fulfilled, rejected}
use jspro_cpp.Runtime.Code.{Code}
use jspro_cpp.Runtime.Cell.{outcome}
use jspro_cpp.Runtime.Store.{Store, write, free}
use jspro_cpp.Machine.Exec.{Frame, exec, exec_code}
use jspro_cpp.Machine.Threads.{step}
use jspro_cpp.Machine.Runs.{Runs, stop, next, Runs-trans, step-status, step-on_done}
use jspro_cpp.Machine.Settled.{reported, report, reported-outcome, reported-other, reported-next}
use jspro_cpp.Machine.Returns.{made, made-cell, made-Quiet, create-Runs, report_alone-Runs}
use jspro_cpp.Machine.Detached.{
  detached, step-detach, detached-next, detached-readers, detached-outcome,
}
use jspro_cpp.Combinators.Spec.{mapped}
use jspro_cpp.Combinators.Race.{
  Racer, all_void, has_void, race_value, race_handle, race_one, race_all, race,
}

-- The outcome of a race that `x` wins with `o`.
abbrev pub won : List Racer → Racer → Outcome → Outcome
won xs x o = mapped (race_value (all_void xs) (has_void xs) x.is_void) o

module _ {S : Type 0} where
  -- A promise that can take part: it is known, and no lock is kept on it.
  pub record Enters (s : Store S) (x : Racer) : Type 0 where
    pub known : x.promise < s.next
    pub unread : (s.cell x.promise).readers ≡ 0

  -- No lock is kept that was not, and no promise has gone.
  record Open (s s' : Store S) : Type 0 where
    count : s'.next ≡ s.next
    unread : (p : ℕ) → (s'.cell p).readers ≡ (s.cell p).readers

  Enters-Open : (s s' : Store S) (x : Racer) → Open s s' → Enters s x → Enters s' x
  Enters-Open s s' x o h = record {
    known = omega (arith, o.count, h.known);
    unread = o.unread x.promise ∙ h.unread;
  }

  counted : ℕ → Store S → Store S
  counted p s =
      write p
        (record (s.cell p) {
          use_count = suc (s.cell p).use_count;
          notified = suc (s.cell p).notified;
        })
        s

  step-count_use :
      (s : Store S) (w : Option ℕ) (p : ℕ) (k : Code S) (fs : List (Frame S))
      → free s p ≡ true
      → step s (Frame.run w (Code.count_use p k) ∷ fs) ≡ some (counted p s, Frame.run w k ∷ fs)
  unfolding step exec exec_code counted
  step-count_use s w p k fs v = rw v refl

  counted-Open : (s : Store S) (p : ℕ) → Open s (counted p s)
  unfolding counted
  counted-Open s p = record { count = refl; unread = λ q. ground arith }

  counted-outcome : (s : Store S) (p q : ℕ) → outcome ((counted p s).cell q) ≡ outcome (s.cell q)
  unfolding counted
  counted-outcome s p q = ground arith

  detached-Open : (s : Store S) (p : ℕ) → Open s (detached p s)
  detached-Open s p = record { count = detached-next s p; unread = detached-readers s p }

  Enters-free : (s : Store S) (x : Racer) → Enters s x → free s x.promise ≡ true
  Enters-free s x h = ground (arith, h.known, h.unread)

  module _ (convert : Bool → Value → Value) (v : Bool) (r : ℕ) (w : Option ℕ) (k : ℕ → Code S)
      (fs : List (Frame S)) (o : Outcome) where
    -- Once the race is decided the promises that are left are only counted as used.
    rest-Runs :
        (s : Store S) (xs : List Racer)
        → r < s.next
        → outcome (s.cell r) ≡ some o
        → All (Enters s) xs
        → (s' : Store S) × Runs s
            (Frame.run w (race_all convert v xs r r k) ∷ fs)
            s'
            (Frame.run w (k r) ∷ fs)
          × (outcome (s'.cell r) ≡ some o)
    unfolding race_all race_one
    rest-Runs s [] l e h = (s, stop, e)
    rest-Runs s (x ∷ xs) l e h =
        let p = x.promise in
        let c = counted-Open s p in
        let d = detached-Open (counted p s) p in
        let (s', runs, done) =
          rest-Runs (detached p (counted p s)) xs (omega (arith, l, c.count, d.count))
            (detached-outcome (counted p s) p r ∙ counted-outcome s p r ∙ e)
            (All-map (Enters s) (Enters (detached p (counted p s))) xs
              (λ y q. Enters-Open _ _ y d (Enters-Open _ _ y c q)) h.1) in
        (
          s',
          next (step-status s w r _ fs (lt→ltb r s.next l)) (
              rw e (
                next (step-count_use s w p _ fs (Enters-free s x h.0)) (
                  next
                    (step-detach (counted p s) w p _ fs
                      (Enters-free (counted p s) x (Enters-Open s (counted p s) x c h.0)))
                    runs))),
          done,
        )

  pub handle-report :
      (convert : Value → Value) (r : ℕ) (o : Outcome) (k : Code S)
      → race_handle convert r o k ≡ report (mapped convert o) r k
  unfolding race_handle
  handle-report convert r (fulfilled v) k = refl
  handle-report convert r (rejected e) k = refl

  -- The store once the race promise is settled.
  decided : Outcome → Store S → Store S
  decided o s = reported o s.next (made s)

  Enters-decided : (s : Store S) (o : Outcome) (x : Racer) → Enters s x → Enters (decided o s) x
  unfolding decided
  Enters-decided s o x h = record {
    known = omega (arith, reported-next o s.next (made s), h.known);
    unread =
        ap (λ c. c.readers) (reported-other o s.next x.promise (made s) (omega (arith, h.known)))
        ∙ ground (arith, h.known, h.unread);
  }

  decided-next : (s : Store S) (o : Outcome) → (decided o s).next ≡ suc s.next
  unfolding decided
  decided-next s o = reported-next o s.next (made s)

  decided-outcome : (s : Store S) (o : Outcome) → outcome ((decided o s).cell s.next) ≡ some o
  unfolding decided
  decided-outcome s o = reported-outcome o s.next (made s) (rw (made-cell s))

  module _ (s : Store S) (x : Racer) (xs : List Racer) (o : Outcome) (w : Option ℕ) (k : ℕ → Code S)
      (fs : List (Frame S)) where
    first-Runs :
        (convert : Bool → Value → Value) (v : Bool)
        → outcome (s.cell x.promise) ≡ some o
        → Enters s x
        → Runs s
            (Frame.run w (Code.create λ r. race_all convert v (x ∷ xs) r r k) ∷ fs)
            (detached x.promise (decided (mapped (convert x.is_void) o) s))
            (Frame.run w (race_all convert v xs s.next s.next k) ∷ fs)
    unfolding race_all race_one decided
    first-Runs convert v e h = Runs-trans (create-Runs s w _ fs) (
        next (step-status (made s) w s.next _ fs (lt→ltb s.next (made s).next (omega arith))) (
          rw (made-cell s) (
            next
              (step-on_done (made s) w x.promise _ _ _ fs o (ap outcome old ∙ e)
                (ground (arith, old, h.known, h.unread)))
              (rw
                (handle-report (convert x.is_void) s.next o
                  (Code.detach x.promise (race_all convert v xs s.next s.next k)))
                (Runs-trans
                  (report_alone-Runs (made s) w (mapped (convert x.is_void) o) s.next _ fs
                    (made-Quiet s) (rw (made-cell s)) (rw (made-cell s)))
                  (next
                    (step-detach _ w x.promise _ fs
                      (Enters-free _ x (Enters-decided s (mapped (convert x.is_void) o) x h)))
                    stop))))))
      where
        old : (made s).cell x.promise ≡ s.cell x.promise
        old = ground (arith, h.known)

    -- `Race` over promises, with no lock kept on any of them, of which the first is done with `o`,
    -- returns a promise that is done with `o` before it returns, its value converted as the types of
    -- the race ask, whether the others are pending or done.
    pub race_done :
        outcome (s.cell x.promise) ≡ some o
        → All (Enters s) (x ∷ xs)
        → (s' : Store S) × Runs s
            (Frame.run w (race (x ∷ xs) k) ∷ fs)
            s'
            (Frame.run w (k s.next) ∷ fs)
          × (outcome (s'.cell s.next) ≡ some (won (x ∷ xs) x o))
    unfolding race
    race_done e h =
        let convert = race_value (all_void (x ∷ xs)) (has_void (x ∷ xs)) in
        let v = all_void (x ∷ xs) in
        let o' = won (x ∷ xs) x o in
        let d = detached-Open (decided o' s) x.promise in
        let (s', runs, done) =
          rest-Runs convert v s.next w k fs o' (detached x.promise (decided o' s)) xs
            (omega (arith, d.count, decided-next s o'))
            (detached-outcome (decided o' s) x.promise s.next ∙ decided-outcome s o')
            (All-map (Enters s) (Enters (detached x.promise (decided o' s))) xs
              (λ y q. Enters-Open _ _ y d (Enters-decided s o' y q)) h.1) in
        (s', Runs-trans (first-Runs convert v e h.0) runs, done)
