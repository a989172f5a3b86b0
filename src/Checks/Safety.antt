-- ===== src/Checks/Safety.antt =====
-- Threads that race to settle a promise.
use jspro_cpp.Prelude.{ℕ, ◌<◌, ◌+◌, ◌≡◌, refl, true, false, none, some, List, [], ◌∷◌, ◌++◌, to_ℕ}
use jspro_cpp.Runtime.Value.{num, void, fulfilled}
use jspro_cpp.Runtime.Code.{Code, Awaiter}
use jspro_cpp.Runtime.Cell.{
  Cell, blank, is_done, outcome, settle, release_handle, on_resolved, await_function, un_await,
  some_id,
}
use jspro_cpp.Machine.Exec.{Frame, exec, exec_code, await_or_go}
use jspro_cpp.Machine.Threads.{schedule, turn, turn_at, step}
use jspro_cpp.Machine.Moved.{total}
use jspro_cpp.Machine.Safety.{
  reached, settled_once, one_winner, settling_undone, no_awaiter_lost, await_undone, settle_release,
  unheard,
}

-- One thread makes a promise, leaves a function on it and resolves it; another resolves it too.
abbrev racing : List (Code ℕ)
racing =
    Code.create (λ p.
      Code.on_done p (Code.ret void) (λ _. Code.ret void)
        λ _. Code.resolve p (num 7) λ _. Code.ret void)
    ∷ (Code.resolve 0 (num 9) λ _. Code.ret void)
    ∷ []

-- The second thread comes first, and the first thread loses.
abbrev turns : List ℕ
turns = 0 ∷ 0 ∷ 1 ∷ 0 ∷ 1 ∷ []

settled_once_example :
    outcome ((schedule (0 ∷ 1 ∷ 1 ∷ []) (reached 0 racing turns)).store.cell 0)
    ≡ some (fulfilled (num 9))
unfolding schedule turn turn_at step exec exec_code await_or_go await_function settle on_resolved
settled_once_example = settled_once 0 racing turns (0 ∷ 1 ∷ 1 ∷ []) 0 (fulfilled (num 9)) refl

one_winner_example :
    total 0 (reached 0 racing (0 ∷ 0 ∷ 1 ∷ [])).threads
      + to_ℕ (is_done ((reached 0 racing (0 ∷ 0 ∷ 1 ∷ [])).store.cell 0))
    ≡ to_ℕ ((reached 0 racing (0 ∷ 0 ∷ 1 ∷ [])).store.cell 0).resolved
one_winner_example = one_winner 0 racing (0 ∷ 0 ∷ 1 ∷ []) 0

settling_undone_example : is_done ((reached 0 racing (0 ∷ 0 ∷ 1 ∷ [])).store.cell 0) ≡ false
unfolding schedule turn turn_at step exec exec_code await_or_go await_function
settling_undone_example =
    settling_undone 0 racing (0 ∷ 0 ∷ 1 ∷ []) 0 (fulfilled (num 9))
      (Frame.run none (Code.ret void) ∷ [])
      ((Frame.run none (Code.resolve 0 (num 7) λ _. Code.ret void) ∷ []) ∷ []) [] refl

no_awaiter_lost_example :
    (((reached 0 racing turns).store.cell 0).awaiters ≡ [])
    × (((reached 0 racing turns).store.cell 0).self_owned ≡ false)
unfolding schedule turn turn_at step exec exec_code await_or_go await_function settle on_resolved
no_awaiter_lost_example = no_awaiter_lost 0 racing turns 0 refl refl

await_undone_example :
    let c = (reached 0 racing (0 ∷ 0 ∷ [])).store.cell 0 in
    let (c', id) = await_function (Code.ret void) c in
    (some_id id c.awaiters ≡ false)
    × ((un_await id c').1 ≡ true)
    × ((un_await id c').0.awaiters ≡ c.awaiters)
    × ((j : ℕ) → (un_await j (un_await j c).0).1 ≡ false)
await_undone_example = await_undone 0 racing (0 ∷ 0 ∷ []) 0 (Code.ret void)

-- A coroutine's promise with a function that waits for it.
abbrev awaited : Cell ℕ
awaited = record (blank false true) {
  awaiters = Awaiter.function 1 (Code.ret void) ∷ [];
  use_count = 1;
}

settle_release_example :
    let (a, a₁) = settle (fulfilled (num 7)) awaited in
    let (a', a₂) = release_handle a in
    let (b, b₁) = release_handle awaited in
    let (b', b₂) = settle (fulfilled (num 7)) b in
    (unheard a' ≡ unheard b')
    × (awaited.notified < a'.notified)
    × (awaited.notified < b'.notified)
    × (a₁ ++ a₂ ≡ b₁ ++ b₂)
    × (a₁ ++ a₂ ≡ awaited.awaiters)
settle_release_example = settle_release (fulfilled (num 7)) awaited refl
