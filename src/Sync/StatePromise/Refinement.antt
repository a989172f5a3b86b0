-- ===== src/Sync/StatePromise/Refinement.antt =====
-- The operations of a state promise against the machine of its phases. src/StatePromise.cpp
use jspro_cpp.Prelude.{ℕ, suc, Bool, true, false, Option, List, ◌∷◌, arith}
use jspro_cpp.Runtime.Code.{Code}
use jspro_cpp.Runtime.Store.{Store}
use jspro_cpp.Machine.Exec.{Frame}
use jspro_cpp.Machine.Runs.{Runs, stop, next, Runs-trans, step-locked}
use jspro_cpp.Machine.Returns.{made, create-Runs}
use jspro_cpp.Machine.Delivery.{Pending}
use jspro_cpp.Combinators.Wrapper.{is_resolved}
use jspro_cpp.Sync.StatePromise.{
  StatePromise, state_new, set_ready, set_done, destroy, is_done, reset,
}
use jspro_cpp.Sync.StatePromise.Phases.{Phase, At, Pending-Runs, Fulfilled-Runs, made_alone}
use jspro_cpp.Sync.StatePromise.Moves.{
  Goes, initial-set_ready, initial-set_done, ready-set_done, initial-reset, ready-reset, done-reset,
  initial-destroy,
}

-- The operations, and how each moves the phase.
pub data Operation : Type 0 where
  ready_op : Operation
  done_op : Operation
  reset_op : Operation
  destroy_op : Operation

abbrev pub perform : Operation → Code StatePromise → Code StatePromise
perform Operation.ready_op k = set_ready k
perform Operation.done_op k = set_done k
perform Operation.reset_op k = reset k
perform Operation.destroy_op k = destroy k

pub data Move : Operation → Phase → Phase → Type 0 where
  readied : Move Operation.ready_op Phase.initial Phase.ready
  finished_early : Move Operation.done_op Phase.initial Phase.done
  finished : Move Operation.done_op Phase.ready Phase.done
  reset_initial : Move Operation.reset_op Phase.initial Phase.initial
  reset_ready : Move Operation.reset_op Phase.ready Phase.initial
  reset_done : Move Operation.reset_op Phase.done Phase.initial
  destroyed : Move Operation.destroy_op Phase.initial Phase.done

-- For every move of the phases and every store in the phase that it starts from, the operation,
-- called from any code, comes to its end in a store in the phase that the move leads to. So none
-- of its assertions fails. Nobody waits on a promise of the object that is pending.
pub moves_refined :
    (op : Operation) (ph ph' : Phase) (s : Store StatePromise)
    → Move op ph ph'
    → At s ph
    → Goes s (perform op) ph'
moves_refined _ _ _ s readied h = initial-set_ready s h
moves_refined _ _ _ s finished_early h = initial-set_done s h
moves_refined _ _ _ s finished h = ready-set_done s h
moves_refined _ _ _ s reset_initial h = initial-reset s h
moves_refined _ _ _ s reset_ready h = ready-reset s h
moves_refined _ _ _ s reset_done h = done-reset s h
moves_refined _ _ _ s destroyed h = initial-destroy s h

-- The answer of `IsDone`.
pub done_in : Phase → Bool
done_in Phase.initial = false
done_in Phase.ready = false
done_in Phase.done = true

-- In every phase, with nobody waiting on a promise of the object that is pending, `IsDone` comes to
-- its end without a change and answers whether the phase is the done one.
pub is_done-Runs :
    (s : Store StatePromise) (ph : Phase) (w : Option ℕ) (k : Bool → Code StatePromise)
    (fs : List (Frame StatePromise))
    → At s ph
    → Runs s (Frame.run w (is_done k) ∷ fs) s (Frame.run w (k (done_in ph)) ∷ fs)
unfolding is_done is_resolved done_in
is_done-Runs s Phase.initial w k fs (n, r, d) =
    next (step-locked s w _ _ fs) (Pending-Runs s w s.shared.done _ fs d)
is_done-Runs s Phase.ready w k fs (n, r, d) =
    next (step-locked s w _ _ fs) (Pending-Runs s w s.shared.done _ fs d)
is_done-Runs s Phase.done w k fs (n, r, d) = next (step-locked s w _ _ fs) (
    Runs-trans (Fulfilled-Runs s w s.shared.done _ fs d) (Fulfilled-Runs s w s.shared.ready _ fs r))

-- The store with the two promises of a new object.
founded : Store StatePromise → Store StatePromise
founded s = record (made (made s)) { shared = record { ready = s.next; done = suc s.next } }

founded-ready : (s : Store StatePromise) → Pending (founded s) s.next
unfolding founded
founded-ready s = made_alone (founded s) s.next (omega arith) (ground arith)

founded-done : (s : Store StatePromise) → Pending (founded s) (suc s.next)
unfolding founded
founded-done s = made_alone (founded s) (suc s.next) (omega arith) (ground arith)

-- In every store the constructor comes to its end, and the object is in the initial phase.
pub new_starts : (s : Store StatePromise) → Goes s state_new Phase.initial
unfolding state_new founded
new_starts s = record {
  after_ = founded s;
  runs = λ w k fs.
      Runs-trans (create-Runs s w _ fs) (
        Runs-trans (create-Runs (made s) w _ fs)
          (next (step-locked (made (made s)) w _ _ fs) stop));
  phase = (λ e. omega (arith, e), founded-ready s, founded-done s);
}
