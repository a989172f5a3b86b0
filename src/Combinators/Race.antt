-- ===== src/Combinators/Race.antt =====
-- `Race`. include/promise/details/Promise.inl, include/promise/details/helpers.inl
use jspro_cpp.Prelude.{ℕ, Bool, true, false, none, some, List, [], ◌∷◌, ◌||◌, ◌&&◌}
use jspro_cpp.Runtime.Value.{Value, null_opt, engaged, void, Outcome, fulfilled, rejected}
use jspro_cpp.Runtime.Code.{Code}
use jspro_cpp.Combinators.Fun.{Fun, done_void}
use jspro_cpp.Combinators.Finally.{finally_move}

-- A promise in a race, with whether it is a promise of void.
pub record Racer : Type 0 where
  pub is_void : Bool
  pub promise : ℕ

unfoldable pub all_void : List Racer → Bool
all_void [] = true
all_void (r ∷ rs) = r.is_void && all_void rs

unfoldable pub has_void : List Racer → Bool
has_void [] = false
has_void (r ∷ rs) = r.is_void || has_void rs

-- `RaceReturn`: void if all are void, optional if some are.
unfoldable pub race_value : Bool → Bool → Bool → Value → Value
race_value true has is_void v = void
race_value false true true v = null_opt
race_value false true false v = engaged v
race_value false false is_void v = v

module _ {S : Type 0} where
  unfoldable pub race_handle : (Value → Value) → ℕ → Outcome → Code S → Code S
  race_handle convert r (rejected e) k = Code.reject r e λ _. k
  race_handle convert r (fulfilled v) k = Code.resolve r (convert v) λ _. k

  -- When the race is decided the awaiter that was left on `p` goes.
  abbrev pub leave_race : ℕ → ℕ → Fun S Value
  leave_race p id = Fun.plain λ _. Code.un_await p id λ _. done_void

  -- `Race` of one promise: `current` is the race promise so far, `r` the one to settle.
  unfoldable pub race_one : (Value → Value) → Bool → ℕ → ℕ → ℕ → (ℕ → Code S) → Code S
  race_one convert race_void p current r k = Code.status current λ o. elim o [
    | some _ ↦ Code.count_use p (k current)
    | none ↦
        Code.on_done p (Code.read p λ o. race_handle convert r o done_void)
          (λ o. race_handle convert r o (k current))
          (λ id. finally_move race_void current (leave_race p id) k)
  ]

  unfoldable pub race_all :
      (Bool → Value → Value) → Bool → List Racer → ℕ → ℕ → (ℕ → Code S) → Code S
  race_all convert race_void [] current r k = k current
  race_all convert race_void (x ∷ xs) current r k =
      race_one (convert x.is_void) race_void x.promise current r
        λ next. Code.detach x.promise (race_all convert race_void xs next r k)

  unfoldable pub race : List Racer → (ℕ → Code S) → Code S
  race xs k =
      Code.create λ r. race_all (race_value (all_void xs) (has_void xs)) (all_void xs) xs r r k
