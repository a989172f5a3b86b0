-- ===== src/Checks/Typing.antt =====
-- Types and values of chained promises.
use jspro_cpp.Prelude.{ℕ, List, [], ◌∷◌, ◌++◌}
use jspro_cpp.Runtime.Value.{Value, num, fulfilled}
use jspro_cpp.Combinators.Laws.RaceLaws.{won}
use jspro_cpp.Types.CppType.{CppType, Types}
use jspro_cpp.Types.Returns.{race_return}
use jspro_cpp.Types.Typing.{of_base, OutcomeOf}
use jspro_cpp.Types.Gathered.{racer, racers, types, race_typed}

abbrev int : CppType
int = CppType.base 0

abbrev real : CppType
real = CppType.base 1

-- Two promises of one type, one of another and one of void.
abbrev entered : List (CppType × ℕ)
entered = (int, 0) ∷ (real, 1) ∷ []

race_typed_example :
    OutcomeOf (race_return (types (entered ++ ((int, 2) ∷ (CppType.void, 3) ∷ [])))) (
      won
        (racers (entered ++ ((int, 2) ∷ (CppType.void, 3) ∷ [])))
        (racer (int, 2))
        (fulfilled (num 7)))
race_typed_example =
    race_typed (int, 2) entered ((CppType.void, 3) ∷ []) (fulfilled (num 7)) of_base
