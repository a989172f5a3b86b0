-- ===== src/Types/CppType.antt =====
-- The types that user code instantiates the templates with.
-- include/promise/core/concepts.inl
use Prim.Native.Nat.{ℕ}
use native.Mathlib.Decide.{ℕ_discrete}
use mathlib.Core.Bool.{Bool, true, false}

-- `base` is any type that the library does not look into. `callable` is a class with one call
-- operator, a lambda or a pointer to a function: `std::function` can be made of it. `promise` is
-- `IPromise<T, WITH_RESOLVER>` and `wrapper` is `WPromise<T>`.
mutual
  pub data CppType : Type 0 where
    void : CppType
    base : ℕ → CppType
    const_ref : CppType → CppType
    optional : CppType → CppType
    vector : CppType → CppType
    variant : Types → CppType
    tuple : Types → CppType
    function : CppType → Types → CppType
    callable : CppType → Types → CppType
    resolve : CppType → CppType
    reject : CppType
    promise : CppType → Bool → CppType
    wrapper : CppType → CppType

  -- A pack of types.
  pub data Types : Type 0 where
    end : Types
    more : CppType → Types → Types

unfoldable pub CppType_discrete : Discrete CppType
CppType_discrete = hlevel (ℕ_discrete)

unfoldable pub is_same : CppType → CppType → Bool
is_same a b = elim (CppType_discrete a b) [ yes _ ↦ true | no _ ↦ false ]

unfoldable pub is_void : CppType → Bool
is_void CppType.void = true
is_void _ = false

-- `std::remove_cvref_t`
abbrev pub remove_cvref : CppType → CppType
remove_cvref (CppType.const_ref t) = t
remove_cvref t = t

-- `std::conditional_t`
abbrev pub conditional {ℓ} : {A : Type ℓ} → Bool → A → A → A
conditional true a b = a
conditional false a b = b
