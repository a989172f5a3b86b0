-- ===== src/Combinators/Laws/Moved.antt =====
-- `Then` on an rvalue handle: the details are detached as the call returns. include/promise/details/Promise.inl, include/promise/details/Handle.inl
use jspro_cpp.Prelude.{ℕ, suc, ◌≡◌, ap, ◌∙◌, false, none, [], ◌∷◌, arith}
use jspro_cpp.Runtime.Code.{Code, Awaiter}
use jspro_cpp.Runtime.Cell.{Cell, outcome, settle, on_resolved, await_function}
use jspro_cpp.Runtime.Cell
use jspro_cpp.Runtime.Store.{Store}
use jspro_cpp.Machine.Settled.{Quiet}
use jspro_cpp.Machine.Returns.{made}
use jspro_cpp.Machine.Delivery.{
  waiting, Pending, made-Pending, made-other, waiting-cell, waiting-next,
}
use jspro_cpp.Machine.Detached.{detached, detached-cell, detached-next}

module _ {S : Type 0} where
  module _ (s : Store S) (p : ℕ) (f : Code S) (h : Pending s p) where
    abbrev left_on : Store S
    left_on = waiting p f (made s)

    -- The store when the call on the rvalue handle has returned.
    abbrev pub moved : Store S
    moved = detached p left_on

    moved-cell : moved.cell p ≡ Cell.detach (await_function f ((made s).cell p)).0
    moved-cell = detached-cell left_on p ∙ ap Cell.detach (waiting-cell (made s) p f)

    pub moved-Quiet : Quiet moved p
    unfolding Cell.detach await_function
    moved-Quiet =
        let g = (made-Pending s p h).quiet in
        record {
          known = omega (arith, detached-next left_on p, waiting-next (made s) p f, g.known);
          open_ = rw moved-cell (ground (arith, g.open_));
          unread = rw moved-cell (ground (arith, g.unread));
          idle = rw moved-cell (ground (arith, g.idle));
        }

    pub moved-undone : outcome (moved.cell p) ≡ none
    unfolding Cell.detach await_function
    moved-undone = rw moved-cell (ground (arith, (made-Pending s p h).undone))

    pub moved-awaiters :
        (moved.cell p).awaiters ≡ Awaiter.function (suc ((made s).cell p).use_count) f ∷ []
    unfolding Cell.detach await_function
    moved-awaiters = rw moved-cell (ground (arith, (made-Pending s p h).alone))

    pub moved-unused : (s.cell p).rejected ≡ false → (moved.cell p).rejected ≡ false
    unfolding Cell.detach await_function
    moved-unused e = rw moved-cell (ground (arith, made-other s p h.quiet.known, e))
