-- ===== src/Combinators/Laws/RaceChain.antt =====
-- The chain of promises that `Race` leaves when no promise is done: each settles the next, and takes
-- an awaiter away before. include/promise/details/Promise.inl
use jspro_cpp.Prelude.{
  ℕ, ◌≤◌, ◌<◌, ◌≡◌, ◌≢◌, refl, sym, subst, ◌∙◌, Bool, true, false, Option, none, some, List, [],
  ◌∷◌, arith, ==_refl, All, update-all,
}
use jspro_cpp.Runtime.Value.{Outcome, fulfilled, rejected}
use jspro_cpp.Runtime.Code.{Code, Awaiter, try_catch}
use jspro_cpp.Runtime.Cell.{Cell, outcome, un_await, remove_id}
use jspro_cpp.Runtime.Store.{Store, write, free}
use jspro_cpp.Machine.Exec.{Frame, exec, exec_code}
use jspro_cpp.Machine.Threads.{step}
use jspro_cpp.Machine.Settled.{Quiet, report}
use jspro_cpp.Combinators.Fun.{done_void}
use jspro_cpp.Combinators.Finally.{finally_body, apply_value, apply_exception}
use jspro_cpp.Combinators.Race.{leave_race}
use jspro_cpp.Combinators.Chain.{listener}
use jspro_cpp.Combinators.Laws.Tracked.{Waits}

-- The racers are different promises, below `b`.
abbrev pub Separate : ℕ → List (ℕ × ℕ) → Type 0
Separate b [] = Unit {0}
Separate b (e ∷ es) = (e.0 < b) × All (λ e'. (e'.0 < b) × (e.0 ≢ e'.0)) es × Separate b es

module _ {S : Type 0} where
  -- A pending promise whose handles are unused and on which one function waits.
  pub record Guarded (s : Store S) (c : ℕ) (f : Code S) : Type 0 where
    pub quiet : Quiet s c
    pub undone : outcome (s.cell c) ≡ none
    pub unused : (s.cell c).rejected ≡ false
    pub id : ℕ
    pub awaits : (s.cell c).awaiters ≡ Awaiter.function id f ∷ []

  -- What waits on `c`: it takes the awaiter `id` of `x` away and settles `r`.
  abbrev pub quit : ℕ → ℕ → ℕ → ℕ → Code S
  quit c x id r = listener c (finally_body (leave_race x id) r)

  -- From the race promise `c` to the promise that `Race` returned. The racers are below `b`.
  pub data RaceChain (b : ℕ) (s : Store S) : ℕ → List (ℕ × ℕ) → ℕ → Type 0 where
    alone : {c : ℕ} → b ≤ c → Waits s c → RaceChain b s c [] c
    linked :
        {c r last x id : ℕ} {es : List (ℕ × ℕ)}
        → b ≤ c
        → c < r
        → x < b
        → (s.cell x).readers ≡ 0
        → Guarded s c (quit c x id r)
        → RaceChain b s r es last
        → RaceChain b s c ((x, id) ∷ es) last

  -- A racer keeps its outcome and its locks, and gets no awaiters.
  pub record Shrunk (c c' : Cell S) : Type 0 where
    pub same : outcome c' ≡ outcome c
    pub readers : c'.readers ≡ c.readers
    pub emptied : c.awaiters ≡ [] → c'.awaiters ≡ []

  Shrunk-refl : (c : Cell S) → Shrunk c c
  Shrunk-refl c = record { same = refl; readers = refl; emptied = λ e. e }

  pub Shrunk-eq : (c c' : Cell S) → c' ≡ c → Shrunk c c'
  Shrunk-eq c c' e = subst (Shrunk c) (sym e) (Shrunk-refl c)

  pub Shrunk-trans : (c c' c'' : Cell S) → Shrunk c c' → Shrunk c' c'' → Shrunk c c''
  Shrunk-trans c c' c'' a b = record {
    same = b.same ∙ a.same;
    readers = b.readers ∙ a.readers;
    emptied = λ e. b.emptied (a.emptied e);
  }

  un_await-Shrunk : (c : Cell S) (id : ℕ) → Shrunk c (un_await id c).0
  unfolding un_await remove_id
  un_await-Shrunk c id = record { same = refl; readers = refl; emptied = λ e. rw e refl }

  -- The store after `UnAwait`.
  pub left : ℕ → ℕ → Store S → Store S
  left x id s = write x (un_await id (s.cell x)).0 s

  pub step-un_await :
      (s : Store S) (w : Option ℕ) (x id : ℕ) (k : Bool → Code S) (fs : List (Frame S))
      → free s x ≡ true
      → step s (Frame.run w (Code.un_await x id k) ∷ fs)
        ≡ some (left x id s, Frame.run w (k (un_await id (s.cell x)).1) ∷ fs)
  unfolding step exec exec_code left
  step-un_await s w x id k fs v = rw v refl

  pub left-other : (s : Store S) (x id q : ℕ) → x ≢ q → (left x id s).cell q ≡ s.cell q
  unfolding left
  left-other s x id q n = ground arith

  pub left-cell : (s : Store S) (x id : ℕ) → (left x id s).cell x ≡ (un_await id (s.cell x)).0
  unfolding left
  left-cell s x id = rw (==_refl x) refl

  pub left-next : (s : Store S) (x id : ℕ) → (left x id s).next ≡ s.next
  unfolding left
  left-next s x id = refl

  pub left-Shrunk : (s : Store S) (x id q : ℕ) → Shrunk (s.cell q) ((left x id s).cell q)
  unfolding left
  left-Shrunk s x id q =
      update-all (λ q c. Shrunk (s.cell q) c) s.cell x (un_await id (s.cell x)).0
        (un_await-Shrunk (s.cell x) id) (λ q. Shrunk-refl (s.cell q)) q

  pub quit-body :
      (x id r : ℕ) (o : Outcome)
      → finally_body (leave_race {S = S} x id) r o done_void
        ≡ Code.un_await x id (λ _. report o r done_void)
  unfolding finally_body apply_value apply_exception try_catch
  quit-body x id r (fulfilled v) = refl
  quit-body x id r (rejected e) = refl
