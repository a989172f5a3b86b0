-- ===== src/Combinators/All.antt =====
-- `All` over a container of promises. include/promise/details/helpers.inl
use jspro_cpp.Prelude.{ℕ, Bool, true, false, List, [], ◌∷◌, ◌++◌}
use jspro_cpp.Runtime.Value.{Value, void, nil, cons, fulfilled, rejected}
use jspro_cpp.Runtime.Code.{Code}

abbrev pub vector : List Value → Value
vector [] = nil
vector (v ∷ vs) = cons v (vector vs)

module _ {S : Type 0} where
  -- The loops, for promises of void and for others with the results so far.
  unfoldable pub all_void_loop : List ℕ → Code S
  all_void_loop [] = Code.ret void
  all_void_loop (p ∷ ps) =
      Code.co_await p λ o. elim o [ fulfilled v ↦ all_void_loop ps | rejected e ↦ Code.throw e ]

  unfoldable pub all_loop : List ℕ → List Value → Code S
  all_loop [] results = Code.ret (vector results)
  all_loop (p ∷ ps) results =
      Code.co_await p
        λ o. elim o [ fulfilled v ↦ all_loop ps (results ++ (v ∷ [])) | rejected e ↦ Code.throw e ]

  unfoldable pub all_body : Bool → List ℕ → Code S
  all_body true ps = all_void_loop ps
  all_body false ps = all_loop ps []

  unfoldable pub all : Bool → List ℕ → (ℕ → Code S) → Code S
  all is_void ps k = Code.start false (λ _. all_body is_void ps) k
