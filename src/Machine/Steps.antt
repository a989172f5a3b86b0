-- ===== src/Machine/Steps.antt =====
-- Every step of every frame is `Stepped`.
use jspro_cpp.Prelude.{
  ℕ, suc, ◌+◌, ◌≤◌, ◌≡◌, refl, true, false, ◌==◌, ◌&&◌, not, ◌-◌, Option, some, [], ◌∷◌, arith,
  length, to_ℕ, Bool-cases, inl, inr,
}
use jspro_cpp.Runtime.Value.{fulfilled, rejected}
use jspro_cpp.Runtime.Code.{Code}
use jspro_cpp.Runtime.Cell.{
  Cell, Condition, blank, holds, is_done, outcome, settle, on_resolved, release_handle,
  await_coroutine, await_function,
}
use jspro_cpp.Runtime.Cell
use jspro_cpp.Runtime.CellInvariant.{CellOk, Keeps, un_await-Keeps, detach-Keeps, IdsFrom-weaken}
use jspro_cpp.Runtime.Wakes.{Wakes, quiet, same-Wakes, counted-Wakes}
use jspro_cpp.Runtime.Store.{Store, valid, free}
use jspro_cpp.Machine.Kept.{
  free→valid, kept, suspend_or_resume-Ensures, await_or_go-Ensures, read_outcome-Ensures,
  create_or_go-Ensures, un_await-flags, detach-flags, wait_or_go-Stepped, unread,
}
use jspro_cpp.Machine.Exec.{Frame, exec_code, exec}
use jspro_cpp.Machine.Stepped.{
  token, FrameOk, StoreOk, Ensures, guard-Ensures, same_store, allocated,
}
use jspro_cpp.Machine.Settling.{
  exchange-Stepped, settling-Stepped, finish-Stepped, exec_loop-Stepped, leave-Ensures,
}

module _ {S : Type 0} where
  module _ (s : Store S) (ok : StoreOk s) where
    -- Fields that the invariant and the outcome do not read may change at will.
    flags-Keeps :
        (p : ℕ) (c : Cell S)
        → c.value ≡ (s.cell p).value
        → c.exception ≡ (s.cell p).exception
        → c.running ≡ (s.cell p).running
        → c.awaiters ≡ (s.cell p).awaiters
        → c.self_owned ≡ (s.cell p).self_owned
        → (s.cell p).use_count ≤ c.use_count
        → c.use_count ≤ suc (s.cell p).use_count
        → Wakes (s.cell p) c
        → Keeps (s.cell p) c
    flags-Keeps p c v x r a o u u' wakes = record {
      fits = record {
        one = ground (arith, h.one);
        woken = ground (arith, h.woken);
        counted = ground (arith, h.counted);
        ids = rw a (
            IdsFrom-weaken 0 0 (s.cell p).use_count c.use_count (s.cell p).awaiters (omega arith) u
              h.ids);
      };
      stable = λ q e. ground arith;
      used = u';
      ended = λ e. ground arith;
      wakes = wakes;
    }
      where
        h : CellOk (s.cell p)
        h = ok.cells p

    exec_code-Ensures : (w : Option ℕ) (c : Code S) → Ensures s (Frame.run w c) (exec_code w c s)
    unfolding exec_code
    exec_code-Ensures w (Code.ret v) = leave-Ensures s ok w _ (fulfilled v)
    exec_code-Ensures w (Code.throw e) = leave-Ensures s ok w _ (rejected e)
    exec_code-Ensures w (Code.create k) =
        allocated s ok _ true false (Frame.run w (k s.next) ∷ []) (λ q. refl) (tt, tt)
    exec_code-Ensures w (Code.start r body k) =
        allocated s ok _ r true
          (Frame.run (some s.next) (body s.next) ∷ Frame.run w (k s.next) ∷ []) (λ q. refl)
          (tt, (tt, tt))
    exec_code-Ensures w (Code.co_await p k) =
        suspend_or_resume-Ensures s ok (outcome (s.cell p)) w _ p k refl
    exec_code-Ensures w (Code.on_done p f k d) =
        await_or_go-Ensures s ok (outcome (s.cell p)) w _ p f k d refl
    exec_code-Ensures w (Code.on_done_or_create p f k d) =
        create_or_go-Ensures s ok (outcome (s.cell p)) w _ p f k d refl
    exec_code-Ensures w (Code.read p k) =
        read_outcome-Ensures s ok (outcome (s.cell p)) _ w p k (λ q. refl)
    exec_code-Ensures w (Code.resolve p v k) = guard-Ensures s _ (valid s p) _ λ h.
        exchange-Stepped s ok _ p (fulfilled v) (Frame.run w (k true) ∷ [])
          (Frame.run w (k false) ∷ []) h (λ q. refl) (λ q. refl) (λ q. refl)
          (λ s'. ((tt, tt), (tt, tt)))
    exec_code-Ensures w (Code.resolver_reject p e k) = guard-Ensures s _ (valid s p) _ λ h.
        exchange-Stepped s ok _ p (rejected e) (Frame.run w (k true) ∷ [])
          (Frame.run w (k false) ∷ []) h (λ q. refl) (λ q. refl) (λ q. refl)
          (λ s'. ((tt, tt), (tt, tt)))
    exec_code-Ensures w (Code.reject p e k) = guard-Ensures s _ (valid s p) _ λ h.
        elim (Bool-cases (s.cell p).rejected) [
          | inl old ↦ rw old (same_store s ok _ (Frame.run w (k false) ∷ []) (λ q. refl) (tt, tt))
          | inr new ↦ rw new (
              kept s ok w _ p (record (s.cell p) { rejected = true })
                (Frame.run w (Code.resolver_reject p e k) ∷ []) h
                (flags-Keeps p _ refl refl refl refl refl (omega arith) (omega arith)
                  (quiet _ _ refl (unread _ _ refl refl refl refl)))
                refl refl (λ q. refl) (tt, tt))
        ]
    exec_code-Ensures w (Code.un_await p id k) = guard-Ensures s _ (free s p) _ λ h.
        kept s ok w _ p (Cell.un_await id (s.cell p)).0
          (Frame.run w (k (Cell.un_await id (s.cell p)).1) ∷ []) (free→valid s p h)
          (un_await-Keeps (s.cell p) (ok.cells p) id) (un_await-flags id (s.cell p)).0
          (un_await-flags id (s.cell p)).1 (λ q. refl) (tt, tt)
    exec_code-Ensures w (Code.count_use p k) = guard-Ensures s _ (free s p) _ λ h.
        kept s ok w _ p _ (Frame.run w k ∷ []) (free→valid s p h)
          (flags-Keeps p _ refl refl refl refl refl (omega arith) (omega arith)
            (counted-Wakes (s.cell p) _ refl refl refl))
          refl refl (λ q. refl) (tt, tt)
    exec_code-Ensures w (Code.status p k) =
        guard-Ensures s _ (valid s p) _
          λ h. same_store s ok _ (Frame.run w (k (outcome (s.cell p))) ∷ []) (λ q. refl) (tt, tt)
    exec_code-Ensures w (Code.read_counts p k) = guard-Ensures s _ (valid s p) _ λ h.
        same_store s ok _ (Frame.run w (k (length (s.cell p).awaiters) (s.cell p).use_count) ∷ [])
          (λ q. refl) (tt, tt)
    exec_code-Ensures w (Code.detach p k) = guard-Ensures s _ (free s p) _ λ h.
        kept s ok w _ p (Cell.detach (s.cell p)) (Frame.run w k ∷ []) (free→valid s p h)
          (detach-Keeps (s.cell p) (ok.cells p)) (detach-flags (s.cell p)).0
          (detach-flags (s.cell p)).1 (λ q. refl) (tt, tt)
    exec_code-Ensures w (Code.lock_shared p k) = guard-Ensures s _ (valid s p) _ λ h.
        kept s ok w _ p (record (s.cell p) { readers = suc (s.cell p).readers })
          (Frame.run w k ∷ []) h
          (flags-Keeps p _ refl refl refl refl refl (omega arith) (omega arith)
            (quiet _ _ refl (unread _ _ refl refl refl refl)))
          refl refl (λ q. refl) (tt, tt)
    exec_code-Ensures w (Code.unlock_shared p k) = guard-Ensures s _ (valid s p) _ λ h.
        kept s ok w _ p (record (s.cell p) { readers = (s.cell p).readers - 1 })
          (Frame.run w k ∷ []) h
          (flags-Keeps p _ refl refl refl refl refl (omega arith) (omega arith)
            (quiet _ _ refl (unread _ _ refl refl refl refl)))
          refl refl (λ q. refl) (tt, tt)
    exec_code-Ensures w (Code.wait_done p k) = guard-Ensures s _ (valid s p) _ λ h.
        wait_or_go-Stepped s ok (holds Condition.done (s.cell p)) _ w p Condition.done k (λ q. refl)
          refl
    exec_code-Ensures w (Code.wait_awaited p n k) = guard-Ensures s _ (valid s p) _ λ h.
        wait_or_go-Stepped s ok (holds (Condition.used n) (s.cell p)) _ w p (Condition.used n) k
          (λ q. refl) refl
    exec_code-Ensures w Code.abort = tt
    exec_code-Ensures w (Code.locked f k) = record {
      store = record { cells = ok.cells; fresh = ok.fresh };
      stable = λ p o e. e;
      balance = λ q. refl;
      frames = (tt, tt);
      grows = record {
        next = omega arith;
        used = λ q. omega arith;
        ended = λ q v e. e;
        wakes = λ q. same-Wakes (s.cell q);
      };
    }

    -- The step of a frame that holds the token of a promise needs the token to be the only one.
    pub exec-Ensures :
        (f : Frame S)
        → FrameOk s f
        → ((q : ℕ) → token q f + to_ℕ (is_done (s.cell q)) ≤ to_ℕ (s.cell q).resolved)
        → Ensures s f (exec f s)
    unfolding exec
    exec-Ensures (Frame.run w c) x t = exec_code-Ensures w c
    exec-Ensures (Frame.resume w p k) x t =
        read_outcome-Ensures s ok (outcome (s.cell p)) _ w p k (λ q. refl)
    exec-Ensures (Frame.attempt p o) x t = guard-Ensures s _ (valid s p) _ λ h.
        exchange-Stepped s ok _ p o [] [] h (λ q. refl) (λ q. refl) (λ q. refl) (λ s'. (tt, tt))
    exec-Ensures (Frame.settling p o) x t =
        guard-Ensures s _ (free s p) _
          λ h. settling-Stepped s ok p o (free→valid s p h) (ground (arith, t p))
    exec-Ensures (Frame.loop p as') x t = exec_loop-Stepped s ok p as' x
    exec-Ensures (Frame.asleep w p q n k) x t =
        guard-Ensures s _ (valid s p && not ((s.cell p).notified == n)) _
          λ h. wait_or_go-Stepped s ok (holds q (s.cell p)) _ w p q k (λ q'. refl) refl
    exec-Ensures (Frame.finish p) x t =
        guard-Ensures s _ (free s p) _ λ h. finish-Stepped s ok p (free→valid s p h)
