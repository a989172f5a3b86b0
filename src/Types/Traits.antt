-- ===== src/Types/Traits.antt =====
-- What the templates ask of a callable: what it returns, and whether it is a promise, a wrapper or
-- a resolver. `none` is a type that does not exist: the template is ill-formed there.
-- include/promise/core/concepts.inl
use mathlib.Core.Option
use jspro_cpp.Prelude.{Bool, true, false, not, ◌&&◌, Option, none, some, is_some, if◌then◌else◌}
use jspro_cpp.Types.CppType.{CppType, Types, is_same, remove_cvref}

-- `IsFunction` and `IS_FUNCTION`
unfoldable pub is_std_function : CppType → Bool
is_std_function (CppType.function t args) = true
is_std_function _ = false

unfoldable pub is_function : CppType → Bool
is_function t = is_std_function (remove_cvref t)

unfoldable pub function_constructible : CppType → Bool
function_constructible (CppType.function t args) = true
function_constructible (CppType.callable t args) = true
function_constructible (CppType.const_ref (CppType.function t args)) = true
function_constructible (CppType.const_ref (CppType.callable t args)) = true
function_constructible _ = false

-- `return_`, and `return_t` without the references.
unfoldable pub return_of : CppType → Option CppType
return_of (CppType.callable t args) = some t
return_of (CppType.function t args) = some t
return_of (CppType.promise t with_resolver) = some t
return_of (CppType.wrapper t) = some t
return_of _ = none

unfoldable pub return_t : CppType → Option CppType
return_t t = return_of (remove_cvref t)

unfoldable pub has_return : CppType → Bool
has_return t = is_some (return_of (remove_cvref t))

-- `ReturnOrVoid` and `return_or_void_t`
unfoldable pub type_or_void : Option CppType → CppType
type_or_void none = CppType.void
type_or_void (some t) = t

unfoldable pub return_or_void : CppType → CppType
return_or_void t = type_or_void (return_t t)

-- `IsResolver` and `IS_RESOLVER`
unfoldable pub is_resolve_type : CppType → Bool
is_resolve_type (CppType.resolve t) = true
is_resolve_type _ = false

unfoldable pub is_resolver : CppType → Bool
is_resolver t = is_resolve_type (remove_cvref t)

unfoldable pub is_rejector : CppType → Bool
is_rejector t = is_same (remove_cvref t) CppType.reject

-- `WithResolver` and `WITH_RESOLVER`
unfoldable pub is_resolver_promise : CppType → Bool
is_resolver_promise (CppType.promise t with_resolver) = with_resolver
is_resolver_promise _ = false

unfoldable pub with_resolver : CppType → Option Bool
with_resolver t = Option.map is_resolver_promise (return_t t)

-- `ResolveType` and `RESOLVE_TYPE`
unfoldable pub resolve_type_of : CppType → Option CppType
resolve_type_of (CppType.resolve t) = some t
resolve_type_of _ = none

unfoldable pub resolve_type : CppType → Option CppType
resolve_type t = resolve_type_of (remove_cvref t)

-- `IsPromise`, `IsWPromise`, and the tests on callables.
unfoldable pub is_promise_type : CppType → Bool
is_promise_type (CppType.promise t with_resolver) = true
is_promise_type (CppType.wrapper t) = true
is_promise_type _ = false

unfoldable pub is_wrapper_type : CppType → Bool
is_wrapper_type (CppType.wrapper t) = true
is_wrapper_type _ = false

unfoldable pub is_promise : CppType → Bool
is_promise t = is_promise_type (return_or_void t)

unfoldable pub is_wpromise : CppType → Bool
is_wpromise t = is_wrapper_type (remove_cvref t)

unfoldable pub is_promise_function : CppType → Bool
is_promise_function t = is_promise_type (return_or_void t) && not (is_wpromise (return_or_void t))

-- `args_` of a function that returns a resolver-style promise: the handles in front are not
-- counted.
unfoldable pub resolver_args : Types → Types
resolver_args Types.end = Types.end
resolver_args (Types.more a Types.end) = if is_resolver a then Types.end else Types.more a Types.end
resolver_args (Types.more a (Types.more b rest)) =
    if is_resolver a
    then (if is_rejector b then rest else Types.more b rest)
    else Types.more a (Types.more b rest)

unfoldable pub args_of : CppType → Types → Types
args_of t args = if is_resolver_promise t then resolver_args args else args

-- `args_t`, and `all_args_t` with the handles.
unfoldable pub args_t : CppType → Option Types
args_t t = elim (remove_cvref t) [
  | CppType.function r args ↦ some (args_of r args)
  | CppType.callable r args ↦ some (args_of r args)
  | _ ↦ none
]

unfoldable pub all_args_t : CppType → Option Types
all_args_t t = elim (remove_cvref t) [
  | CppType.function r args ↦ some args
  | CppType.callable r args ↦ some args
  | _ ↦ none
]
