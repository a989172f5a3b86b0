-- ===== src/Combinators/Spec.antt =====
-- What a chained promise is settled with, as relations between the outcome of the first promise
-- and the outcome of the second.
use jspro_cpp.Prelude.{◌≡◌, Bool, true, false}
use jspro_cpp.Runtime.Value.{Value, void, Exn, Outcome, fulfilled, rejected}
use jspro_cpp.Runtime.Code.{Code}
use jspro_cpp.Runtime.Store.{Store}
use jspro_cpp.Machine.Returns.{Returns}
use jspro_cpp.Combinators.Catch.{Caught, catches, passed_value, handled_value}

abbrev pub mapped : (Value → Value) → Outcome → Outcome
mapped g (fulfilled v) = fulfilled (g v)
mapped g (rejected e) = rejected e

module _ {S : Type 0} where
  -- `then`: an exception passes by, a value goes to the function.
  pub data ThenResult (s : Store S) (f : Value → Code S)
      : Outcome → Store S → Outcome → Type 0 where
    skipped : {e : Exn} → ThenResult s f (rejected e) s (rejected e)
    called :
        {v : Value} {s' : Store S} {x : Outcome}
        → Returns s (f v) s' x
        → ThenResult s f (fulfilled v) s' x

  -- `catch`: a value passes by, a matching exception goes to the handler, another passes by.
  pub data CatchResult (t_void t2_void : Bool) (c : Caught) (s : Store S) (f : Exn → Code S)
      : Outcome → Store S → Outcome → Type 0 where
    passed :
        {v : Value}
        → CatchResult t_void t2_void c s f
            (fulfilled v)
            s
            (fulfilled (passed_value t_void t2_void v))
    unmatched :
        {e : Exn}
        → catches c e ≡ false
        → CatchResult t_void t2_void c s f (rejected e) s (rejected e)
    handled :
        {e : Exn} {s' : Store S} (x : Outcome)
        → catches c e ≡ true
        → Returns s (f e) s' x
        → CatchResult t_void t2_void c s f (rejected e) s' (mapped (handled_value t_void t2_void) x)

  -- `finally`: the function runs in either case, and only its exception replaces the outcome.
  pub data FinallyResult (s : Store S) (f : Value → Code S) (o : Outcome)
      : Store S → Outcome → Type 0 where
    kept :
        {s' : Store S} {v : Value} → Returns s (f void) s' (fulfilled v) → FinallyResult s f o s' o
    replaced :
        {s' : Store S} {e : Exn}
        → Returns s (f void) s' (rejected e)
        → FinallyResult s f o s' (rejected e)
