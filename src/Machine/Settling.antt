-- ===== src/Machine/Settling.antt =====
-- Settling a promise, running its awaiters, and the end of a coroutine are `Stepped`.
use jspro_cpp.Prelude.{
  ℕ, ◌≡◌, refl, ◌∙◌, ==_refl, true, false, Option, none, some, List, [], ◌∷◌, arith, All,
  Bool-cases, inl, inr,
}
use jspro_cpp.Runtime.Value.{Outcome, fulfilled, rejected}
use jspro_cpp.Runtime.Code.{Code, Awaiter}
use jspro_cpp.Runtime.Cell.{Cell, Condition, holds, is_done, settle, on_resolved, release_handle}
use jspro_cpp.Runtime.CellInvariant.{CellOk, Keeps, settle-Keeps, release_handle-Keeps}
use jspro_cpp.Runtime.Wakes.{quiet}
use jspro_cpp.Runtime.Store.{Store, write, valid}
use jspro_cpp.Machine.Exec.{
  Frame, exchange, final_suspend, leave, leave_function, with_awaiters, exec_loop,
}
use jspro_cpp.Machine.Stepped.{
  token, tokens, FrameOk, StoreOk, Stepped, Ensures, same_store, written,
}

module _ {S : Type 0} where
  settle-flags :
      (o : Outcome) (c : Cell S)
      → (is_done (settle o c).0 ≡ true) × ((settle o c).0.resolved ≡ c.resolved)
  unfolding settle on_resolved
  settle-flags (fulfilled v) c = ground arith
  settle-flags (rejected e) c = ground arith

  release_handle-flags :
      (c : Cell S)
      → (is_done (release_handle c).0 ≡ is_done c) × ((release_handle c).0.resolved ≡ c.resolved)
  unfolding release_handle on_resolved
  release_handle-flags c = ground arith

  release_handle-pending : (c : Cell S) → is_done c ≡ false → (release_handle c).1 ≡ []
  unfolding release_handle on_resolved
  release_handle-pending c d = ground arith

  loop-FrameOk :
      (s' : Store S) (p : ℕ) (as' : List (Awaiter S))
      → is_done (s'.cell p) ≡ true
      → FrameOk s' (Frame.loop p as')
  loop-FrameOk s' p [] d = tt
  loop-FrameOk s' p (a ∷ as') d = d

  release_handle-loop :
      (s' : Store S) (p : ℕ) (c : Cell S)
      → s'.cell p ≡ (release_handle c).0
      → FrameOk s' (Frame.loop p (release_handle c).1)
  release_handle-loop s' p c e = elim (Bool-cases (is_done c)) [
    | inl d ↦ loop-FrameOk s' p _ (rw e (release_handle-flags c).0 ∙ d)
    | inr d ↦ rw (release_handle-pending c d) tt
  ]

  resolved_set-holds :
      (c : Cell S) (q : Condition) → holds q (record c { resolved = true }) ≡ holds q c
  resolved_set-holds c Condition.done = refl
  resolved_set-holds c (Condition.used n) = refl

  module _ (s : Store S) (ok : StoreOk s) where
    resolved_set-Keeps : (p : ℕ) → Keeps (s.cell p) (record (s.cell p) { resolved = true })
    resolved_set-Keeps p = record {
      fits = record { one = h.one; woken = h.woken; counted = h.counted; ids = h.ids };
      stable = λ o e. e;
      used = omega arith;
      ended = λ e. e;
      wakes = quiet (s.cell p) _ refl (resolved_set-holds (s.cell p));
    }
      where
        h : CellOk (s.cell p)
        h = ok.cells p

    -- The winner of the exchange gets the token, and nobody had it.
    pub exchange-Stepped :
        (f : Frame S) (p : ℕ) (o : Outcome) (won lost : List (Frame S))
        → valid s p ≡ true
        → ((q : ℕ) → token q f ≡ 0)
        → ((q : ℕ) → tokens q won ≡ 0)
        → ((q : ℕ) → tokens q lost ≡ 0)
        → ((s' : Store S) → All (FrameOk s') won × All (FrameOk s') lost)
        → Stepped s f (exchange p o won lost s)
    exchange-Stepped f p o won lost v t a b h = elim (Bool-cases (s.cell p).resolved) [
      | inl old ↦ rw old (same_store s ok f lost (λ q. omega (arith, t q, b q)) (h s).1)
      | inr new ↦ rw new (
          written s ok f p (record (s.cell p) { resolved = true }) (Frame.settling p o ∷ won) v
            (resolved_set-Keeps p) (λ q. ground (arith, t q, a q))
            (tt, (h (write p (record (s.cell p) { resolved = true }) s)).0))
    ]

    pub settling-Stepped :
        (p : ℕ) (o : Outcome)
        → valid s p ≡ true
        → is_done (s.cell p) ≡ false
        → Stepped s (Frame.settling p o) (with_awaiters p (settle o (s.cell p)) s)
    settling-Stepped p o v d =
        written s ok (Frame.settling p o) p (settle o (s.cell p)).0
          (Frame.loop p (settle o (s.cell p)).1 ∷ []) v (settle-Keeps (s.cell p) (ok.cells p) o d)
          (λ q. ground (arith, settle-flags o (s.cell p)))
          (loop-FrameOk s' p _ (rw (==_refl p) (settle-flags o (s.cell p)).0), tt)
      where
        s' : Store S
        s' = write p (settle o (s.cell p)).0 s

    pub finish-Stepped :
        (p : ℕ)
        → valid s p ≡ true
        → Stepped s (Frame.finish p) (with_awaiters p (release_handle (s.cell p)) s)
    finish-Stepped p v =
        written s ok (Frame.finish p) p (release_handle (s.cell p)).0
          (Frame.loop p (release_handle (s.cell p)).1 ∷ []) v
          (release_handle-Keeps (s.cell p) (ok.cells p))
          (λ q. ground (arith, release_handle-flags (s.cell p)))
          (release_handle-loop s' p (s.cell p) (rw (==_refl p)), tt)
      where
        s' : Store S
        s' = write p (release_handle (s.cell p)).0 s

    pub exec_loop-Stepped :
        (p : ℕ) (as' : List (Awaiter S))
        → FrameOk s (Frame.loop p as')
        → Stepped s (Frame.loop p as') (s, exec_loop p as')
    unfolding exec_loop
    exec_loop-Stepped p [] d = same_store s ok _ [] (λ q. refl) tt
    exec_loop-Stepped p (Awaiter.coroutine w k ∷ as') d =
        same_store s ok _ (Frame.resume w p k ∷ Frame.loop p as' ∷ []) (λ q. refl)
          (d, (loop-FrameOk s p as' d, tt))
    exec_loop-Stepped p (Awaiter.function id f ∷ as') d =
        same_store s ok _ (Frame.run none f ∷ Frame.loop p as' ∷ []) (λ q. refl)
          (tt, (loop-FrameOk s p as' d, tt))

    pub leave-Ensures :
        (w : Option ℕ) (c : Code S) (o : Outcome) → Ensures s (Frame.run w c) (leave w o s)
    unfolding leave leave_function final_suspend
    leave-Ensures none c (fulfilled v) = same_store s ok _ [] (λ q. refl) tt
    leave-Ensures none c (rejected e) = tt
    leave-Ensures (some p) c (fulfilled v) = elim (Bool-cases (s.cell p).with_resolver) [
      | inl e ↦ rw e (same_store s ok _ (Frame.finish p ∷ []) (λ q. refl) (tt, tt))
      | inr e ↦ rw e (
          same_store s ok _ (Frame.attempt p (fulfilled v) ∷ Frame.finish p ∷ []) (λ q. refl)
            (tt, (tt, tt)))
    ]
    leave-Ensures (some p) c (rejected e) =
        same_store s ok _ (Frame.attempt p (rejected e) ∷ Frame.finish p ∷ []) (λ q. refl)
          (tt, (tt, tt))
