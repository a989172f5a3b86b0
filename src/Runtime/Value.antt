-- ===== src/Runtime/Value.antt =====
-- What a promise is settled with: values (one type for all `T`), exceptions, outcomes.
use jspro_cpp.Prelude.{ℕ}

-- A value of any `T`. `void` is the value of `Promise<void>`; `null_opt` and `engaged` are the two
-- forms of `std::optional`; `nil` and `cons` make a `std::vector` or a `std::tuple`.
pub data Value : Type 0 where
  void : Value
  num : ℕ → Value
  null_opt : Value
  engaged : Value → Value
  nil : Value
  cons : Value → Value → Value

-- An exception held by a `std::exception_ptr`: one of the user's, or one that the library raises.
pub data Exn : Type 0 where
  user : ℕ → Exn
  cv_end : Exn
  state_end : Exn
  queue_stopped : Exn
  queue_not_running : Exn
  already_rejected : Exn

-- What `await_resume` returns or rethrows.
pub data Outcome : Type 0 where
  fulfilled : Value → Outcome
  rejected : Exn → Outcome
