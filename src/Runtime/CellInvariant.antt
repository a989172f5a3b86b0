-- ===== src/Runtime/CellInvariant.antt =====
-- What holds of the details of every promise, and that the critical sections keep it.
use jspro_cpp.Prelude.{
  ℕ, suc, ◌≤◌, ◌<◌, ◌≡◌, refl, ap, ◌⊎◌, inl, Bool, true, false, Option, none, some, List, [], ◌∷◌,
  ◌++◌, arith, length, length-append, ==_refl,
}
use jspro_cpp.Runtime.Value.{Outcome}
use jspro_cpp.Runtime.Code.{Code, Awaiter}
use jspro_cpp.Runtime.Cell.{
  Cell, blank, is_done, outcome, on_resolved, settle, release_handle, await_coroutine,
  await_function, un_await, remove_id, some_id, detach,
}
use jspro_cpp.Runtime.Wakes.{
  Wakes, await_coroutine-Wakes, await_function-Wakes, un_await-Wakes, detach-Wakes, settle-Wakes,
  release_handle-Wakes,
}

module _ {S : Type 0} where
  -- The ids of the functions grow along the list, between the bounds.
  abbrev pub IdsFrom : ℕ → List (Awaiter S) → ℕ → Type 0
  IdsFrom lo [] hi = lo ≤ hi
  IdsFrom lo (Awaiter.coroutine w k ∷ as') hi = IdsFrom lo as' hi
  IdsFrom lo (Awaiter.function i f ∷ as') hi = (lo < i) × IdsFrom i as' hi

  pub record CellOk (c : Cell S) : Type 0 where
    -- never a value and an exception
    pub one : (c.value ≡ none) ⊎ (c.exception ≡ none)
    -- once the promise is done and its coroutine has ended, nobody waits and nothing owns it
    pub woken : is_done c ≡ true → c.running ≡ false → (c.awaiters ≡ []) × (c.self_owned ≡ false)
    pub counted : length c.awaiters ≤ c.use_count
    pub ids : IdsFrom 0 c.awaiters c.use_count

  pub blank-CellOk : (r h : Bool) → CellOk (blank r h)
  blank-CellOk r h = record {
    one = inl refl;
    woken = λ d n. ground arith;
    counted = omega arith;
    ids = omega arith;
  }

  IdsFrom-function :
      (lo hi : ℕ) (as' : List (Awaiter S)) (f : Code S)
      → IdsFrom lo as' hi
      → IdsFrom lo (as' ++ (Awaiter.function (suc hi) f ∷ [])) (suc hi)
  IdsFrom-function lo hi [] f h = (omega arith, omega arith)
  IdsFrom-function lo hi (Awaiter.coroutine w k ∷ as') f h = IdsFrom-function lo hi as' f h
  IdsFrom-function lo hi (Awaiter.function i g ∷ as') f h = (h.0, IdsFrom-function i hi as' f h.1)

  IdsFrom-coroutine :
      (lo hi : ℕ) (as' : List (Awaiter S)) (w : Option ℕ) (k : Outcome → Code S)
      → IdsFrom lo as' hi
      → IdsFrom lo (as' ++ (Awaiter.coroutine w k ∷ [])) (suc hi)
  IdsFrom-coroutine lo hi [] w k h = omega arith
  IdsFrom-coroutine lo hi (Awaiter.coroutine _ _ ∷ as') w k h = IdsFrom-coroutine lo hi as' w k h
  IdsFrom-coroutine lo hi (Awaiter.function i g ∷ as') w k h =
      (h.0, IdsFrom-coroutine i hi as' w k h.1)

  pub IdsFrom-weaken :
      (lo lo' hi hi' : ℕ) (as' : List (Awaiter S))
      → lo' ≤ lo
      → hi ≤ hi'
      → IdsFrom lo as' hi
      → IdsFrom lo' as' hi'
  IdsFrom-weaken lo lo' hi hi' [] l h x = omega arith
  IdsFrom-weaken lo lo' hi hi' (Awaiter.coroutine w k ∷ as') l h x =
      IdsFrom-weaken lo lo' hi hi' as' l h x
  IdsFrom-weaken lo lo' hi hi' (Awaiter.function i g ∷ as') l h x =
      (omega arith, IdsFrom-weaken i i hi hi' as' (omega arith) h x.1)

  IdsFrom-remove :
      (id lo hi : ℕ) (as' : List (Awaiter S)) → IdsFrom lo as' hi → IdsFrom lo (remove_id id as') hi
  unfolding remove_id
  IdsFrom-remove id lo hi [] x = x
  IdsFrom-remove id lo hi (Awaiter.coroutine w k ∷ as') x = IdsFrom-remove id lo hi as' x
  IdsFrom-remove id lo hi (Awaiter.function i g ∷ as') x =
      ground (arith, IdsFrom-remove id i hi as' x.1, IdsFrom-weaken i lo hi hi as')

  length-remove : (id : ℕ) (as' : List (Awaiter S)) → length (remove_id id as') ≤ length as'
  unfolding remove_id
  length-remove id [] = omega arith
  length-remove id (a ∷ as') = ground (arith, length-remove id as')

  -- Ids that lie above a bound do not contain it.
  some_id_above :
      (id lo hi : ℕ) (as' : List (Awaiter S)) → id ≤ lo → IdsFrom lo as' hi → some_id id as' ≡ false
  unfolding some_id
  some_id_above id lo hi [] l x = refl
  some_id_above id lo hi (Awaiter.coroutine w k ∷ as') l x = some_id_above id lo hi as' l x
  some_id_above id lo hi (Awaiter.function i g ∷ as') l x =
      ground (arith, some_id_above id i hi as')

  IdsFrom-le : (lo hi : ℕ) (as' : List (Awaiter S)) → IdsFrom lo as' hi → lo ≤ hi
  IdsFrom-le lo hi [] x = x
  IdsFrom-le lo hi (Awaiter.coroutine w k ∷ as') x = IdsFrom-le lo hi as' x
  IdsFrom-le lo hi (Awaiter.function i g ∷ as') x = omega (arith, IdsFrom-le i hi as' x.1, x.0)

  -- An id beyond all that were given.
  some_id_beyond :
      (id lo hi : ℕ) (as' : List (Awaiter S)) → hi < id → IdsFrom lo as' hi → some_id id as' ≡ false
  unfolding some_id
  some_id_beyond id lo hi [] l x = refl
  some_id_beyond id lo hi (Awaiter.coroutine w k ∷ as') l x = some_id_beyond id lo hi as' l x
  some_id_beyond id lo hi (Awaiter.function i g ∷ as') l x =
      ground (arith, IdsFrom-le i hi as' x.1, some_id_beyond id i hi as')

  pub some_id-remove :
      (id lo hi : ℕ) (as' : List (Awaiter S))
      → IdsFrom lo as' hi
      → some_id id (remove_id id as') ≡ false
  unfolding some_id remove_id
  some_id-remove id lo hi [] x = refl
  some_id-remove id lo hi (Awaiter.coroutine w k ∷ as') x = some_id-remove id lo hi as' x
  some_id-remove id lo hi (Awaiter.function i g ∷ as') x =
      ground (arith, some_id-remove id i hi as' x.1, some_id_above id i hi as')

  some_id-append :
      (id : ℕ) (as' : List (Awaiter S)) (f : Code S)
      → some_id id (as' ++ (Awaiter.function id f ∷ [])) ≡ true
  unfolding some_id
  some_id-append id [] f = rw (==_refl id)
  some_id-append id (a ∷ as') f = ground (arith, some_id-append id as' f)

  remove_id-append :
      (id : ℕ) (as' : List (Awaiter S)) (f : Code S)
      → some_id id as' ≡ false
      → remove_id id (as' ++ (Awaiter.function id f ∷ [])) ≡ as'
  unfolding some_id remove_id
  remove_id-append id [] f e = rw (==_refl id)
  remove_id-append id (a ∷ as') f e = ground (arith, remove_id-append id as' f)

  -- A function that was just left can be found by its id, and taken away again.
  pub await-un_await :
      (c : Cell S) (f : Code S)
      → CellOk c
      → let (c', id) = await_function f c in
        (some_id id c.awaiters ≡ false)
        × ((un_await id c').1 ≡ true)
        × ((un_await id c').0.awaiters ≡ c.awaiters)
  unfolding await_function un_await
  await-un_await c f h = (
    new,
    some_id-append (suc c.use_count) c.awaiters f,
    remove_id-append (suc c.use_count) c.awaiters f new,
  )
    where
      new : some_id (suc c.use_count) c.awaiters ≡ false
      new = some_id_beyond (suc c.use_count) 0 c.use_count c.awaiters (omega arith) h.ids

  -- How a critical section may change a promise: it keeps the invariant, an outcome stays, one
  -- awaiter more is counted at most, a coroutine that has ended stays so, and no condition comes to
  -- hold unheard.
  pub record Keeps (c c' : Cell S) : Type 0 where
    pub fits : CellOk c'
    pub stable : (o : Outcome) → outcome c ≡ some o → outcome c' ≡ some o
    pub used : c'.use_count ≤ suc c.use_count
    pub ended : c.running ≡ false → c'.running ≡ false
    pub wakes : Wakes c c'

  module _ (c : Cell S) (h : CellOk c) where
    pub await_coroutine-Keeps :
        (w : Option ℕ) (k : Outcome → Code S) → outcome c ≡ none → Keeps c (await_coroutine w k c)
    unfolding await_coroutine
    await_coroutine-Keeps w k e = record {
      fits = record {
        one = h.one;
        woken = λ d n. ground arith;
        counted = omega (arith, length-append c.awaiters (Awaiter.coroutine w k ∷ []), h.counted);
        ids = IdsFrom-coroutine 0 c.use_count c.awaiters w k h.ids;
      };
      stable = λ o q. q;
      used = omega arith;
      ended = λ q. q;
      wakes = await_coroutine-Wakes c w k;
    }

    pub await_function-Keeps : (f : Code S) → outcome c ≡ none → Keeps c (await_function f c).0
    unfolding await_function
    await_function-Keeps f e = record {
      fits = record {
        one = h.one;
        woken = λ d n. ground arith;
        counted = omega (
          arith,
          length-append c.awaiters (Awaiter.function (suc c.use_count) f ∷ []),
          h.counted,
        );
        ids = IdsFrom-function 0 c.use_count c.awaiters f h.ids;
      };
      stable = λ o q. q;
      used = omega arith;
      ended = λ q. q;
      wakes = await_function-Wakes c f;
    }

    pub un_await-Keeps : (id : ℕ) → Keeps c (un_await id c).0
    unfolding un_await remove_id
    un_await-Keeps id = record {
      fits = record {
        one = h.one;
        woken = λ d n. let (a, q) = h.woken d n in (ap (remove_id id) a, q);
        counted = omega (arith, length-remove id c.awaiters, h.counted);
        ids = IdsFrom-remove id 0 c.use_count c.awaiters h.ids;
      };
      stable = λ o q. q;
      used = omega arith;
      ended = λ q. q;
      wakes = un_await-Wakes c id;
    }

    pub detach-Keeps : Keeps c (detach c)
    unfolding detach
    detach-Keeps = ground (arith, h.woken, detach-Wakes c)

    pub settle-Keeps : (o : Outcome) → is_done c ≡ false → Keeps c (settle o c).0
    unfolding settle on_resolved
    settle-Keeps (Outcome.fulfilled v) e = ground (arith, settle-Wakes c (Outcome.fulfilled v) e)
    settle-Keeps (Outcome.rejected x) e = ground (arith, settle-Wakes c (Outcome.rejected x) e)

    pub release_handle-Keeps : Keeps c (release_handle c).0
    unfolding release_handle on_resolved
    release_handle-Keeps = ground (arith, h.woken, release_handle-Wakes c)
