-- ===== src/Machine/Runs.antt =====
-- Runs of one thread, step by step, with the rules for single operations.
use jspro_cpp.Prelude.{ℕ, suc, ◌≡◌, refl, ap, true, Option, none, some, List, [], ◌∷◌}
use jspro_cpp.Runtime.Value.{Outcome}
use jspro_cpp.Runtime.Code.{Code}
use jspro_cpp.Runtime.Cell.{outcome, await_coroutine}
use jspro_cpp.Runtime.Store.{Store, write, valid, free}
use jspro_cpp.Machine.Exec.{
  Frame, exec, exec_code, exec_loop, suspend_or_resume, await_or_go, create_or_go, read_outcome,
}
use jspro_cpp.Machine.Threads.{step, settled_step, run}

-- The thread goes from the first stack and store to the second.
pub data Runs {S : Type 0} : Store S → List (Frame S) → Store S → List (Frame S) → Type 0 where
  stop : {s : Store S} {t : List (Frame S)} → Runs s t s t
  next :
      {s s' s'' : Store S} {t t' t'' : List (Frame S)}
      → step s t ≡ some (s', t')
      → Runs s' t' s'' t''
      → Runs s t s'' t''

module _ {S : Type 0} where
  pub Runs-trans :
      {s s' s'' : Store S} {t t' t'' : List (Frame S)}
      → Runs s t s' t'
      → Runs s' t' s'' t''
      → Runs s t s'' t''
  Runs-trans stop b = b
  Runs-trans (next e a) b = next e (Runs-trans a b)

  -- A run is what the thread does when it is left to itself for long enough.
  Runs-run :
      {s s' : Store S} {t t' : List (Frame S)} → Runs s t s' t' → (n : ℕ) × (run n s t ≡ (s', t'))
  unfolding run
  Runs-run stop = (0, refl)
  Runs-run {s} {s'} {t} {t'} (next e r) =
      let (n, h) = Runs-run r in (suc n, rw (ap (settled_step s t) e) h)

  pub step-on_done :
      (s : Store S) (w : Option ℕ) (p : ℕ) (f : Code S) (k : Outcome → Code S) (d : ℕ → Code S)
      (fs : List (Frame S)) (o : Outcome)
      → outcome (s.cell p) ≡ some o
      → free s p ≡ true
      → step s (Frame.run w (Code.on_done p f k d) ∷ fs) ≡ some (s, Frame.run w (k o) ∷ fs)
  unfolding step exec exec_code await_or_go
  step-on_done s w p f k d fs o e v = rw (e, await_or_go) (rw v)

  pub step-on_done_or_create :
      (s : Store S) (w : Option ℕ) (p : ℕ) (f : ℕ → Code S) (k : Outcome → Code S) (d : ℕ → Code S)
      (fs : List (Frame S)) (o : Outcome)
      → outcome (s.cell p) ≡ some o
      → free s p ≡ true
      → step s (Frame.run w (Code.on_done_or_create p f k d) ∷ fs)
        ≡ some (s, Frame.run w (k o) ∷ fs)
  unfolding step exec exec_code create_or_go
  step-on_done_or_create s w p f k d fs o e v = rw (e, create_or_go) (rw v)

  pub step-read :
      (s : Store S) (w : Option ℕ) (p : ℕ) (k : Outcome → Code S) (fs : List (Frame S))
      (o : Outcome)
      → outcome (s.cell p) ≡ some o
      → valid s p ≡ true
      → step s (Frame.run w (Code.read p k) ∷ fs) ≡ some (s, Frame.run w (k o) ∷ fs)
  unfolding step exec exec_code read_outcome
  step-read s w p k fs o e v = rw (e, read_outcome) (rw v)

  pub step-co_await :
      (s : Store S) (w : Option ℕ) (p : ℕ) (k : Outcome → Code S) (fs : List (Frame S))
      (o : Outcome)
      → outcome (s.cell p) ≡ some o
      → valid s p ≡ true
      → step s (Frame.run w (Code.co_await p k) ∷ fs) ≡ some (s, Frame.run w (k o) ∷ fs)
  unfolding step exec exec_code suspend_or_resume
  step-co_await s w p k fs o e v = rw (e, suspend_or_resume) (rw v)

  pub step-status :
      (s : Store S) (w : Option ℕ) (p : ℕ) (k : Option Outcome → Code S) (fs : List (Frame S))
      → valid s p ≡ true
      → step s (Frame.run w (Code.status p k) ∷ fs)
        ≡ some (s, Frame.run w (k (outcome (s.cell p))) ∷ fs)
  unfolding step exec exec_code
  step-status s w p k fs v = rw v

  pub step-locked :
      (s : Store S) (w : Option ℕ) (f : S → S) (k : S → Code S) (fs : List (Frame S))
      → step s (Frame.run w (Code.locked f k) ∷ fs)
        ≡ some (record s { shared = f s.shared }, Frame.run w (k s.shared) ∷ fs)
  unfolding step exec exec_code
  step-locked s w f k fs = refl

  pub step-park :
      (s : Store S) (w : Option ℕ) (p : ℕ) (k : Outcome → Code S) (fs : List (Frame S))
      → outcome (s.cell p) ≡ none
      → free s p ≡ true
      → step s (Frame.run w (Code.co_await p k) ∷ fs)
        ≡ some (write p (await_coroutine w k (s.cell p)) s, fs)
  unfolding step exec exec_code suspend_or_resume
  step-park s w p k fs e v = rw (e, suspend_or_resume) (rw v)

  pub step-loop_end :
      (s : Store S) (p : ℕ) (fs : List (Frame S)) → step s (Frame.loop p [] ∷ fs) ≡ some (s, fs)
  unfolding step exec exec_loop
  step-loop_end s p fs = refl
