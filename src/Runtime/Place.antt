-- ===== src/Runtime/Place.antt =====
-- Where the state that is shared besides the promises keeps an object.
use jspro_cpp.Prelude.{◌≡◌, refl}

-- What an object's operations need of the state that they stand in: its own part, and a law.
pub record Place (A S : Type 0) : Type 0 where
  pub get : S → A
  pub put : A → S → S
  pub get_put : (a : A) (x : S) → get (put a x) ≡ a

-- The object is all the state there is.
instance abbrev pub whole : {A : Type 0} → Place A A
whole = record { get = λ a. a; put = λ a x. a; get_put = λ a x. refl }
