-- ===== src/Types/Deduction.antt =====
-- The type that is deduced for a wrapper made from a callable, and the type of the promise that is
-- made. include/promise/core/WPromise.h, include/promise/details/helpers.inl
use mathlib.Core.Option
use jspro_cpp.Prelude.{Bool, true, Option, some, ◌||◌, if◌then◌else◌}
use jspro_cpp.Types.CppType.{CppType, Types, is_void}
use jspro_cpp.Types.Traits.{return_or_void, is_resolver, resolve_type, is_promise_type}

-- `WPromise` makes its promise with no arguments: the callable takes nothing or a `Resolve` handle.
abbrev pub starts : Types → Bool
starts Types.end = true
starts (Types.more a rest) = is_resolver a

-- What a callable that returns no promise is to make a promise of.
abbrev pub handle_value : CppType → Types → Option CppType
handle_value t Types.end = some t
handle_value t (Types.more a rest) = resolve_type a

abbrev pub promised : CppType → Types → Option CppType
promised t args = if is_promise_type t then some (return_or_void t) else handle_value t args

-- Whether the static assertion lets a callable with these arguments return `t`.
abbrev pub returns_void : CppType → Types → Bool
returns_void t Types.end = true
returns_void t (Types.more a rest) = is_void t

abbrev pub accepted : CppType → Types → Bool
accepted t args = is_promise_type t || returns_void t args
