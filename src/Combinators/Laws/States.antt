-- ===== src/Combinators/Laws/States.antt =====
-- The state queries of a handle. include/promise/details/WPromise.inl, core/ValuePromise.h
use jspro_cpp.Prelude.{ℕ, ◌≡◌, false, ◌||◌, ◌&&◌, none, List, is_some, arith, ◌⊎◌}
use jspro_cpp.Runtime.Code.{Code}
use jspro_cpp.Runtime.Cell.{Cell, is_done, outcome}
use jspro_cpp.Machine.Safety.{reached, one_outcome}
use jspro_cpp.Combinators.Wrapper.{is_resolved, is_rejected}

module _ {S : Type 0} where
  -- For all code `cs` of the threads, every schedule `is` and every promise: `Resolved` is whether
  -- there is a value, `Rejected` is whether there is an exception, `Done` is whether one of the two
  -- holds, and never do both.
  pub states_agree :
      (v : S) (cs : List (Code S)) (is : List ℕ) (p : ℕ)
      → let c = (reached v cs is).store.cell p in
        (is_resolved (outcome c) ≡ is_some c.value)
        × (is_rejected (outcome c) ≡ is_some c.exception)
        × (is_done c ≡ is_resolved (outcome c) || is_rejected (outcome c))
        × (is_resolved (outcome c) && is_rejected (outcome c) ≡ false)
  unfolding is_resolved is_rejected
  states_agree v cs is p = agree ((reached v cs is).store.cell p) (one_outcome v cs is p)
    where
      agree :
          (c : Cell S)
          → (c.value ≡ none) ⊎ (c.exception ≡ none)
          → (is_resolved (outcome c) ≡ is_some c.value)
            × (is_rejected (outcome c) ≡ is_some c.exception)
            × (is_done c ≡ is_resolved (outcome c) || is_rejected (outcome c))
            × (is_resolved (outcome c) && is_rejected (outcome c) ≡ false)
      agree c h = ground (arith, h)
