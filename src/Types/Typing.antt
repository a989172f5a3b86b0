-- ===== src/Types/Typing.antt =====
-- Values have types, and the values that `Catch` passes on have the types that the
-- templates compute. include/promise/core/concepts.inl, include/promise/details/helpers.inl
use jspro_cpp.Prelude.{ℕ}
use jspro_cpp.Runtime.Value.{Value, Outcome, fulfilled, rejected}
use jspro_cpp.Types.CppType.{CppType, Types}

pub data Alternative (t : CppType) : Types → Type 0 where
  here : {ts : Types} → Alternative t (Types.more t ts)
  there : {u : CppType} {ts : Types} → Alternative t ts → Alternative t (Types.more u ts)

-- The values of a type. A variant holds a value of one of its alternatives.
pub data HasType : Value → CppType → Type 0 where
  of_void : HasType Value.void CppType.void
  of_base : {n k : ℕ} → HasType (Value.num n) (CppType.base k)
  of_null : {t : CppType} → HasType Value.null_opt (CppType.optional t)
  of_engaged :
      {v : Value} {t : CppType} → HasType v t → HasType (Value.engaged v) (CppType.optional t)
  of_nil : {t : CppType} → HasType Value.nil (CppType.vector t)
  of_cons :
      {v w : Value} {t : CppType}
      → HasType v t
      → HasType w (CppType.vector t)
      → HasType (Value.cons v w) (CppType.vector t)
  of_unit : HasType Value.nil (CppType.tuple Types.end)
  of_pair :
      {v w : Value} {t : CppType} {ts : Types}
      → HasType v t
      → HasType w (CppType.tuple ts)
      → HasType (Value.cons v w) (CppType.tuple (Types.more t ts))
  of_alternative :
      {v : Value} {t : CppType} {ts : Types}
      → Alternative t ts
      → HasType v t
      → HasType v (CppType.variant ts)

-- The outcome of a promise of a type: any exception, or a value of the type.
abbrev pub OutcomeOf : CppType → Outcome → Type 0
OutcomeOf t (fulfilled v) = HasType v t
OutcomeOf t (rejected e) = Unit {0}
