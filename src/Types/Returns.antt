-- ===== src/Types/Returns.antt =====
-- The types of the promises that the library makes from callables and from other promises.
-- include/promise/core/concepts.inl, include/promise/details/helpers.inl
use mathlib.Core.Option
use jspro_cpp.Prelude.{
  Bool, true, false, not, ◌&&◌, ◌||◌, Option, none, some, List, [], ◌∷◌, if◌then◌else◌,
}
use jspro_cpp.Types.CppType.{CppType, Types, is_same, is_void, conditional}
use jspro_cpp.Types.Traits.{
  return_t, return_or_void, is_resolver, resolve_type, is_promise_function, is_promise, is_wpromise,
  is_function, all_args_t,
}

-- `WReturn`: both of its alternatives have to exist.
unfoldable pub w_return_of : Types → Option CppType → Option CppType
w_return_of Types.end returned = returned
w_return_of (Types.more a rest) none = none
w_return_of (Types.more a rest) (some t) =
    Option.map (λ r. conditional (is_resolver a) r t) (resolve_type a)

unfoldable pub w_return : CppType → Option CppType
w_return f = elim (all_args_t f) [ none ↦ none | some args ↦ w_return_of args (return_t f) ]

-- What a continuation returns, or what the promise that it returns is of.
unfoldable pub continuation_value : CppType → Option CppType
continuation_value f = elim (return_t f) [
  | none ↦ none
  | some t ↦ some (conditional (is_promise_function f) (return_or_void t) t)
]

unfoldable pub then_return : CppType → Option CppType
then_return f = Option.map CppType.wrapper (continuation_value f)

-- `CatchReturn2`, of the promise's type and of the handler's.
unfoldable pub catch_value : CppType → CppType → CppType
catch_value t t2 =
    if is_void t2 && is_void t
    then CppType.void
    else if is_void t2
    then CppType.optional t
    else if is_void t
    then CppType.optional t2
    else if is_same t t2
    then t2
    else CppType.variant (Types.more t2 (Types.more t Types.end))

unfoldable pub catch_return2 : CppType → CppType → CppType
catch_return2 t t2 = CppType.wrapper (catch_value t t2)

unfoldable pub catch_return : CppType → CppType → Option CppType
catch_return t f = Option.map (catch_return2 t) (continuation_value f)

unfoldable pub finally_return : CppType → CppType
finally_return t = CppType.wrapper t

unfoldable pub cref_or_void : CppType → CppType
cref_or_void CppType.void = CppType.void
cref_or_void t = CppType.const_ref t

-- `UniqueVariantHelper` and `unique_variant`: the types seen so far, in order.
abbrev pub any_same : CppType → List CppType → Bool
any_same t [] = false
any_same t (u ∷ us) = is_same t u || any_same t us

abbrev pub snoc : List CppType → CppType → List CppType
snoc [] t = t ∷ []
snoc (u ∷ us) t = u ∷ snoc us t

unfoldable pub add_if_missing : CppType → List CppType → List CppType
add_if_missing t us = if any_same t us || is_void t then us else snoc us t

unfoldable pub unique_from : List CppType → List CppType → List CppType
unique_from us [] = us
unique_from us (t ∷ ts) = unique_from (add_if_missing t us) ts

unfoldable pub unique_variant : List CppType → List CppType
unique_variant ts = unique_from [] ts

abbrev pub pack : List CppType → Types
pack [] = Types.end
pack (t ∷ ts) = Types.more t (pack ts)

-- `RaceReturn`, of the values of the promises.
abbrev pub every_void : List CppType → Bool
every_void [] = true
every_void (t ∷ ts) = is_void t && every_void ts

abbrev pub some_void : List CppType → Bool
some_void [] = false
some_void (t ∷ ts) = is_void t || some_void ts

abbrev pub one_or_variant : List CppType → CppType
one_or_variant (t ∷ []) = t
one_or_variant ts = CppType.variant (pack ts)

unfoldable pub race_return : List CppType → CppType
race_return ts =
    if every_void ts
    then CppType.void
    else if some_void ts
    then CppType.optional (one_or_variant (unique_variant ts))
    else one_or_variant (unique_variant ts)

-- `All`: the tuple of what is not void, and the vector.
unfoldable pub all_tuple : List CppType → List CppType
all_tuple [] = []
all_tuple (t ∷ ts) = if is_void t then all_tuple ts else t ∷ all_tuple ts

unfoldable pub all_return : List CppType → CppType
all_return ts = CppType.tuple (pack (all_tuple ts))

unfoldable pub all_container_return : CppType → CppType
all_container_return t = if is_void t then CppType.void else CppType.vector t

-- A callable that takes a `Resolve` handle and returns a value is refused by a static assertion.
unfoldable pub asserted_value : CppType → Option CppType → Option CppType
asserted_value a none = none
asserted_value a (some t) = if is_void t then resolve_type a else none

-- `Return` of `MakePromise`.
unfoldable pub make_promise_return : CppType → Option CppType
make_promise_return f = elim (all_args_t f) [
  | none ↦ none
  | some args ↦ elim args [
    | Types.end ↦ return_t f
    | Types.more a rest ↦ if is_resolver a then asserted_value a (return_t f) else return_t f
  ]
]

-- `std::function{…}`
abbrev pub as_function : CppType → CppType
as_function (CppType.callable t args) = CppType.function t args
as_function t = t

-- What the promise is of that `Create` of a coroutine makes, which refuses other callables.
unfoldable pub create_value : CppType → Option CppType
create_value f = if is_promise_function f then Option.bind (return_t f) return_t else none

-- What the promise is of that `MakePromise` makes of a `std::function`: one overload for the
-- callables that return a promise, one for the others.
unfoldable pub make_function_value : CppType → Option CppType
make_function_value f =
    if is_promise f && not (is_wpromise f) then create_value f else make_promise_return f

unfoldable pub make_promise_value : CppType → Option CppType
make_promise_value f =
    if is_function f then make_function_value f else make_function_value (as_function f)

-- The deduction guides of `WPromise`.
unfoldable pub deduced : CppType → Option CppType
deduced f =
    if is_promise_function f
    then Option.map (λ t. CppType.wrapper (return_or_void t)) (return_t f)
    else Option.map CppType.wrapper (w_return f)
