-- ===== src/Combinators/AllTuple.antt =====
-- `All` over a pack of promises. include/promise/details/helpers.inl
use jspro_cpp.Prelude.{ℕ, Bool, true, false, List, [], ◌∷◌}
use jspro_cpp.Runtime.Value.{Value, nil, cons}
use jspro_cpp.Runtime.Code.{Code}
use jspro_cpp.Combinators.Fun.{Fun}
use jspro_cpp.Combinators.Then.{then_move}
use jspro_cpp.Combinators.Race.{Racer}
use jspro_cpp.Combinators.Wrapper.{await_value}

-- `std::tuple_cat` of two
abbrev pub tuple_cat : Value → Value → Value
tuple_cat (cons v rest) w = cons v (tuple_cat rest w)
tuple_cat _ w = w

-- The tuple of one value, or of none for a promise of void.
abbrev pub tuple_of : Bool → Value → Value
tuple_of true v = nil
tuple_of false v = cons v nil

module _ {S : Type 0} where
  unfoldable pub as_tuple : Bool → Fun S Value
  as_tuple is_void = Fun.plain λ v. Code.ret (tuple_of is_void v)

  -- One argument of `tuple_cat`.
  unfoldable pub tuple_arg : Racer → (Value → Code S) → Code S
  tuple_arg x k = then_move x.is_void x.promise (as_tuple x.is_void) λ r. await_value r k

  -- C++ leaves open in which order arguments are evaluated: the first before the others, or after.
  unfoldable pub tuple_args : Bool → List Racer → (Value → Code S) → Code S
  tuple_args in_order [] k = k nil
  tuple_args true (x ∷ xs) k = tuple_arg x λ v. tuple_args true xs λ w. k (tuple_cat v w)
  tuple_args false (x ∷ xs) k = tuple_args false xs λ w. tuple_arg x λ v. k (tuple_cat v w)

  unfoldable pub all_pack : Bool → List Racer → (ℕ → Code S) → Code S
  all_pack in_order xs k = Code.start false (λ _. tuple_args in_order xs λ v. Code.ret v) k
