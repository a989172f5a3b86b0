-- ===== src/Runtime/Wakes.antt =====
-- That no condition a thread waits for comes to hold without a `notify_all`, and that it stays so.
-- include/promise/details/Handle.inl
use jspro_cpp.Prelude.{
  ℕ, suc, ◌≤◌, ◌<◌, ◌≡◌, refl, ◌∙◌, Bool, true, false, Option, arith, Bool-cases, inl, inr,
}
use jspro_cpp.Runtime.Value.{Outcome}
use jspro_cpp.Runtime.Code.{Code}
use jspro_cpp.Runtime.Cell.{
  Cell, Condition, blank, holds, is_done, settle, on_resolved, release_handle, await_coroutine,
  await_function, un_await, detach,
}

blank-holds :
    (S : Type 0) (r h : Bool) (q : Condition)
    → holds {S = S} q (blank r h) ≡ holds {S = S} q (blank false false)
blank-holds S r h Condition.done = refl
blank-holds S r h (Condition.used n) = refl

module _ {S : Type 0} where
  pub record Wakes (c c' : Cell S) : Type 0 where
    pub louder : c.notified ≤ c'.notified
    pub heard : (q : Condition) → holds q c ≡ false → holds q c' ≡ true → c.notified < c'.notified
    pub lasting : (q : Condition) → holds q c ≡ true → holds q c' ≡ true

  -- A change that no condition sees.
  pub quiet :
      (c c' : Cell S)
      → c'.notified ≡ c.notified
      → ((q : Condition) → holds q c' ≡ holds q c)
      → Wakes c c'
  quiet c c' n e = record {
    louder = omega (arith, n);
    heard = λ q a b. cc (e q);
    lasting = λ q a. e q ∙ a;
  }

  -- A change that comes with a `notify_all`.
  pub loud :
      (c c' : Cell S)
      → suc c.notified ≤ c'.notified
      → ((q : Condition) → holds q c ≡ true → holds q c' ≡ true)
      → Wakes c c'
  loud c c' n l = record {
    louder = omega (arith, n);
    heard = λ q a b. omega (arith, n);
    lasting = l;
  }

  pub same-Wakes : (c : Cell S) → Wakes c c
  same-Wakes c = quiet c c refl (λ q. refl)

  pub Wakes-trans : (a b c : Cell S) → Wakes a b → Wakes b c → Wakes a c
  Wakes-trans a b c x y = record {
    louder = omega (arith, x.louder, y.louder);
    heard = λ q e h. elim (Bool-cases (holds q b)) [
      | inl t ↦ omega (arith, x.heard q e t, y.louder)
      | inr f ↦ omega (arith, x.louder, y.heard q f h)
    ];
    lasting = λ q e. y.lasting q (x.lasting q e);
  }

  pub blank-Wakes : (r h : Bool) → Wakes (blank false false) (blank r h)
  blank-Wakes r h = quiet _ _ refl (blank-holds S r h)

  -- One use more was counted, and the rest that a condition reads stays.
  counted_on :
      (c c' : Cell S)
      → c'.use_count ≡ suc c.use_count
      → holds Condition.done c' ≡ holds Condition.done c
      → (q : Condition) → holds q c ≡ true
      → holds q c' ≡ true
  counted_on c c' u d Condition.done h = d ∙ h
  counted_on c c' u d (Condition.used n) h = ground arith

  pub counted-Wakes :
      (c c' : Cell S)
      → c'.notified ≡ suc c.notified
      → c'.use_count ≡ suc c.use_count
      → holds Condition.done c' ≡ holds Condition.done c
      → Wakes c c'
  counted-Wakes c c' n u d = loud c c' (omega (arith, n)) (counted_on c c' u d)

  module _ (c : Cell S) where
    pub await_coroutine-Wakes :
        (w : Option ℕ) (k : Outcome → Code S) → Wakes c (await_coroutine w k c)
    unfolding await_coroutine
    await_coroutine-Wakes w k = counted-Wakes c _ refl refl refl

    pub await_function-Wakes : (f : Code S) → Wakes c (await_function f c).0
    unfolding await_function
    await_function-Wakes f = counted-Wakes c _ refl refl refl

    un_await-holds : (id : ℕ) (q : Condition) → holds q (un_await id c).0 ≡ holds q c
    unfolding un_await
    un_await-holds id Condition.done = refl
    un_await-holds id (Condition.used n) = refl

    pub un_await-Wakes : (id : ℕ) → Wakes c (un_await id c).0
    unfolding un_await
    un_await-Wakes id = quiet c _ refl (un_await-holds id)

    detach-holds : (q : Condition) → holds q (detach c) ≡ holds q c
    unfolding detach
    detach-holds Condition.done = ground arith
    detach-holds (Condition.used n) = ground arith

    detach-notified : (detach c).notified ≡ c.notified
    unfolding detach
    detach-notified = ground arith

    pub detach-Wakes : Wakes c (detach c)
    detach-Wakes = quiet c _ detach-notified detach-holds

    settle-running :
        (o : Outcome) → c.running ≡ true → (q : Condition) → holds q (settle o c).0 ≡ holds q c
    unfolding settle on_resolved
    settle-running (Outcome.fulfilled v) r Condition.done = ground arith
    settle-running (Outcome.rejected x) r Condition.done = ground arith
    settle-running (Outcome.fulfilled v) r (Condition.used n) = ground arith
    settle-running (Outcome.rejected x) r (Condition.used n) = ground arith

    settle-lasting :
        (o : Outcome) (q : Condition)
        → is_done c ≡ false
        → holds q c ≡ true
        → holds q (settle o c).0 ≡ true
    unfolding settle on_resolved
    settle-lasting (Outcome.fulfilled v) Condition.done d h = ground arith
    settle-lasting (Outcome.rejected x) Condition.done d h = ground arith
    settle-lasting (Outcome.fulfilled v) (Condition.used n) d h = ground arith
    settle-lasting (Outcome.rejected x) (Condition.used n) d h = ground arith

    settle-notified :
        (o : Outcome)
        → (c.running ≡ true → (settle o c).0.notified ≡ c.notified)
          × (c.running ≡ false → (settle o c).0.notified ≡ suc c.notified)
    unfolding settle on_resolved
    settle-notified (Outcome.fulfilled v) = ground arith
    settle-notified (Outcome.rejected x) = ground arith

    pub settle-Wakes : (o : Outcome) → is_done c ≡ false → Wakes c (settle o c).0
    settle-Wakes o d = elim (Bool-cases c.running) [
      | inl r ↦ quiet c _ ((settle-notified o).0 r) (settle-running o r)
      | inr r ↦ loud c _ (omega (arith, (settle-notified o).1 r)) (λ q h. settle-lasting o q d h)
    ]

    release_handle-louder : suc c.notified ≤ (release_handle c).0.notified
    unfolding release_handle on_resolved
    release_handle-louder = ground arith

    release_handle-lasting :
        (q : Condition) → holds q c ≡ true → holds q (release_handle c).0 ≡ true
    unfolding release_handle on_resolved
    release_handle-lasting Condition.done h = ground arith
    release_handle-lasting (Condition.used n) h = ground arith

    pub release_handle-Wakes : Wakes c (release_handle c).0
    release_handle-Wakes = loud c _ release_handle-louder release_handle-lasting
