-- ===== src/Types/Unique.antt =====
-- `unique_variant` keeps every type but void, once. include/promise/details/helpers.inl
use jspro_cpp.Prelude.{◌≡◌, refl, Bool, true, false, not, ◌&&◌, ◌||◌, List, [], ◌∷◌, arith}
use jspro_cpp.Types.CppType.{CppType, is_same, is_void}
use jspro_cpp.Types.Returns.{any_same, snoc, add_if_missing, unique_from, unique_variant}

pub is_same→eq : (a b : CppType) → is_same a b ≡ true → a ≡ b
unfolding is_same
is_same→eq a b h = ground arith

pub is_same_refl : (a : CppType) → is_same a a ≡ true
unfolding is_same
is_same_refl a = ground arith

is_same_sym : (a b : CppType) → is_same a b ≡ is_same b a
is_same_sym a b = ground (arith, is_same→eq a b, is_same→eq b a, is_same_refl a, is_same_refl b)

-- No type stands twice in the list.
abbrev pub distinct : List CppType → Bool
distinct [] = true
distinct (t ∷ ts) = not (any_same t ts) && distinct ts

any_same-snoc :
    (t u : CppType) (us : List CppType) → any_same t (snoc us u) ≡ any_same t us || is_same t u
any_same-snoc t u [] = ground arith
any_same-snoc t u (x ∷ us) = ground (arith, any_same-snoc t u us)

distinct-snoc :
    (u : CppType) (us : List CppType)
    → any_same u us ≡ false
    → distinct us ≡ true
    → distinct (snoc us u) ≡ true
distinct-snoc u [] n d = refl
distinct-snoc u (x ∷ us) n d =
    ground (arith, any_same-snoc x u us, is_same_sym u x, distinct-snoc u us)

add_if_missing-distinct :
    (u : CppType) (us : List CppType) → distinct us ≡ true → distinct (add_if_missing u us) ≡ true
unfolding add_if_missing
add_if_missing-distinct u us d = ground (arith, distinct-snoc u us)

any_same-subst :
    (t u : CppType) (us : List CppType) → is_same t u ≡ true → any_same t us ≡ any_same u us
any_same-subst t u us h = rw (is_same→eq t u h) refl

is_void-subst : (t u : CppType) → is_same t u ≡ true → is_void t ≡ is_void u
is_void-subst t u h = rw (is_same→eq t u h) refl

any_same-add_if_missing :
    (t u : CppType) (us : List CppType)
    → any_same t (add_if_missing u us) ≡ any_same t us || (is_same t u && not (is_void t))
unfolding add_if_missing
any_same-add_if_missing t u us =
    ground (arith, any_same-snoc t u us, any_same-subst t u us, is_void-subst t u)

unique_from-distinct :
    (us ts : List CppType) → distinct us ≡ true → distinct (unique_from us ts) ≡ true
unfolding unique_from
unique_from-distinct us [] d = d
unique_from-distinct us (t ∷ ts) d =
    unique_from-distinct (add_if_missing t us) ts (add_if_missing-distinct t us d)

any_same-unique_from :
    (t : CppType) (us ts : List CppType)
    → any_same t (unique_from us ts) ≡ any_same t us || (any_same t ts && not (is_void t))
unfolding unique_from
any_same-unique_from t us [] = ground arith
any_same-unique_from t us (u ∷ ts) =
    ground (arith, any_same-unique_from t (add_if_missing u us) ts, any_same-add_if_missing t u us)

-- For all types of the promises of a race: the alternatives of `unique_variant` are those of the
-- types that are not void, every one of them, and none stands there twice.
pub unique_alternatives :
    (ts : List CppType)
    → (distinct (unique_variant ts) ≡ true)
      × ((t : CppType) → any_same t (unique_variant ts) ≡ any_same t ts && not (is_void t))
unfolding unique_variant
unique_alternatives ts = (unique_from-distinct [] ts refl, λ t. any_same-unique_from t [] ts)
