-- ===== src/Types/Gathered.antt =====
-- The values that `Race` and `All` pass on have the types that the templates compute.
-- include/promise/details/helpers.inl
use jspro_cpp.Prelude.{
  ℕ, ◌≡◌, refl, ap, subst, true, false, ◌&&◌, ◌||◌, List, [], ◌∷◌, ◌++◌, map, arith, All,
  All-append, Bool-cases, inl, inr,
}
use jspro_cpp.Runtime.Value.{Value, Outcome, fulfilled, rejected}
use jspro_cpp.Combinators.All.{vector}
use jspro_cpp.Combinators.Race.{Racer, all_void, has_void, race_value}
use jspro_cpp.Combinators.Laws.AllLaws.{gather, gather_void, gathered}
use jspro_cpp.Combinators.Laws.RaceLaws.{won}
use jspro_cpp.Types.CppType.{CppType, Types, is_same, is_void}
use jspro_cpp.Types.Returns.{
  any_same, unique_variant, pack, every_void, some_void, one_or_variant, race_return,
  all_container_return,
}
use jspro_cpp.Types.Unique.{is_same→eq, is_same_refl, unique_alternatives}
use jspro_cpp.Types.Typing.{
  Alternative, here, there, HasType, of_void, of_null, of_engaged, of_nil, of_cons, of_alternative,
  OutcomeOf,
}

-- A promise of a race with its type.
abbrev pub racer : CppType × ℕ → Racer
racer e = record { is_void = is_void e.0; promise = e.1 }

abbrev pub racers : List (CppType × ℕ) → List Racer
racers es = map racer es

abbrev pub types : List (CppType × ℕ) → List CppType
types es = map (λ e. e.0) es

all_void-racers : (es : List (CppType × ℕ)) → all_void (racers es) ≡ every_void (types es)
unfolding all_void
all_void-racers [] = refl
all_void-racers (e ∷ es) = ap (λ b. is_void e.0 && b) (all_void-racers es)

has_void-racers : (es : List (CppType × ℕ)) → has_void (racers es) ≡ some_void (types es)
unfolding has_void
has_void-racers [] = refl
has_void-racers (e ∷ es) = ap (λ b. is_void e.0 || b) (has_void-racers es)

member-Alternative :
    (t : CppType) (us : List CppType) → any_same t us ≡ true → Alternative t (pack us)
member-Alternative t [] h = ground arith
member-Alternative t (u ∷ us) h = elim (Bool-cases (is_same t u)) [
  | inl e ↦ subst (λ x. Alternative t (Types.more x (pack us))) (is_same→eq t u e) here
  | inr e ↦ there (member-Alternative t us (ground arith))
]

one_or_variant-HasType :
    (v : Value) (t : CppType) (us : List CppType)
    → any_same t us ≡ true
    → HasType v t
    → HasType v (one_or_variant us)
one_or_variant-HasType v t [] m h = ground arith
one_or_variant-HasType v t (u ∷ []) m h = subst (HasType v) (is_same→eq t u (ground arith)) h
one_or_variant-HasType v t (u ∷ u' ∷ us) m h =
    of_alternative (member-Alternative t (u ∷ u' ∷ us) m) h

is_void-subst : (t u : CppType) → is_same t u ≡ true → is_void t ≡ is_void u
is_void-subst t u h = rw (is_same→eq t u h) refl

member-some_void :
    (t : CppType) (ts : List CppType)
    → any_same t ts ≡ true
    → some_void ts ≡ false
    → is_void t ≡ false
member-some_void t [] m n = ground arith
member-some_void t (u ∷ ts) m n = ground (arith, is_void-subst t u, member-some_void t ts)

unique-HasType :
    (v : Value) (t : CppType) (ts : List CppType)
    → any_same t ts ≡ true
    → is_void t ≡ false
    → HasType v t
    → HasType v (one_or_variant (unique_variant ts))
unique-HasType v t ts m n h =
    one_or_variant-HasType v t (unique_variant ts) (ground (arith, (unique_alternatives ts).1 t)) h

race_value-HasType :
    (v : Value) (t : CppType) (ts : List CppType)
    → any_same t ts ≡ true
    → HasType v t
    → HasType (race_value (every_void ts) (some_void ts) (is_void t) v) (race_return ts)
unfolding race_value race_return
race_value-HasType v t ts m h = elim (Bool-cases (every_void ts)) [
  | inl a ↦ rw a of_void
  | inr a ↦ elim (Bool-cases (some_void ts)) [
    | inl b ↦ elim (Bool-cases (is_void t)) [
      | inl c ↦ rw (a, b, c) of_null
      | inr c ↦ rw (a, b, c) (of_engaged (unique-HasType v t ts m c h))
    ]
    | inr b ↦ rw (a, b) (unique-HasType v t ts m (member-some_void t ts m b) h)
  ]
]

member-middle :
    (e : CppType × ℕ) (xs ys : List (CppType × ℕ)) → any_same e.0 (types (xs ++ (e ∷ ys))) ≡ true
member-middle e [] ys = rw (is_same_refl e.0) refl
member-middle e (x ∷ xs) ys = ground (arith, member-middle e xs ys)

-- Whichever promise of a race decides it, with an outcome of its own type: the outcome of the race
-- promise is of the type that `RaceReturn` computes from the types of all the promises: void,
-- optional or not, the one type that is not void or a variant.
pub race_typed :
    (e : CppType × ℕ) (xs ys : List (CppType × ℕ)) (o : Outcome)
    → OutcomeOf e.0 o
    → OutcomeOf (race_return (types (xs ++ (e ∷ ys)))) (won (racers (xs ++ (e ∷ ys))) (racer e) o)
race_typed e xs ys (rejected x) h = tt
race_typed e xs ys (fulfilled v) h =
    rw (all_void-racers (xs ++ (e ∷ ys)), has_void-racers (xs ++ (e ∷ ys)))
      (race_value-HasType v e.0 (types (xs ++ (e ∷ ys))) (member-middle e xs ys) h)

vector-HasType :
    (t : CppType) (vs : List Value)
    → All (λ v. HasType v t) vs
    → HasType (vector vs) (CppType.vector t)
vector-HasType t [] h = of_nil
vector-HasType t (v ∷ vs) h = of_cons h.0 (vector-HasType t vs h.1)

gather-OutcomeOf :
    (t : CppType) (os : List Outcome) (vs : List Value)
    → All (OutcomeOf t) os
    → All (λ v. HasType v t) vs
    → OutcomeOf (CppType.vector t) (gather os vs)
unfolding gather
gather-OutcomeOf t [] vs h g = vector-HasType t vs g
gather-OutcomeOf t (fulfilled v ∷ os) vs h g =
    gather-OutcomeOf t os (vs ++ (v ∷ [])) h.1 (All-append _ vs (v ∷ []) g (h.0, tt))
gather-OutcomeOf t (rejected e ∷ os) vs h g = tt

gather_void-OutcomeOf : (os : List Outcome) → OutcomeOf CppType.void (gather_void os)
unfolding gather_void
gather_void-OutcomeOf [] = of_void
gather_void-OutcomeOf (fulfilled v ∷ os) = gather_void-OutcomeOf os
gather_void-OutcomeOf (rejected e ∷ os) = tt

-- If the outcomes of the promises in a container are of type `t`, then what `All` settles its
-- promise with is of the type that it computes from `t`: void, or a vector of `t`.
pub container_typed :
    (t : CppType) (os : List Outcome)
    → All (OutcomeOf t) os
    → OutcomeOf (all_container_return t) (gathered (is_void t) os)
unfolding all_container_return gathered
container_typed t os h = elim (Bool-cases (is_void t)) [
  | inl a ↦ rw a (gather_void-OutcomeOf os)
  | inr a ↦ rw a (gather-OutcomeOf t os [] h tt)
]
