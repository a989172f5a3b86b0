-- ===== src/Combinators/Laws/Tracked.antt =====
-- A promise that is done, and one that waits for an outcome, while others are made and settled.
use jspro_cpp.Prelude.{ℕ, ◌≤◌, ◌<◌, ◌≡◌, ◌≢◌, ap, ◌∙◌, true, false, some, arith, ==_refl}
use jspro_cpp.Runtime.Value.{Outcome}
use jspro_cpp.Runtime.Cell.{blank, outcome}
use jspro_cpp.Runtime.Store.{Store, free}
use jspro_cpp.Machine.Settled.{
  reported, reported-outcome, reported-other, reported-next, reported-readers,
}
use jspro_cpp.Machine.Returns.{made, made_done}
use jspro_cpp.Machine.Delivery.{Pending, same-Pending, made-other, made-Pending}
use jspro_cpp.Machine.Detached.{
  detached, detached-next, detached-readers, detached-outcome, detached-other,
}

module _ {S : Type 0} where
  -- A promise that is done with `o`, and on which no lock is kept.
  pub record Usable (s : Store S) (q : ℕ) (o : Outcome) : Type 0 where
    pub known : q < s.next
    pub done : outcome (s.cell q) ≡ some o
    pub unread : (s.cell q).readers ≡ 0

  -- A promise that is pending, with no awaiters, whose handles are unused.
  pub record Waits (s : Store S) (r : ℕ) : Type 0 where
    pub pending : Pending s r
    pub unused : (s.cell r).rejected ≡ false

  pub Usable-free : (s : Store S) (q : ℕ) (o : Outcome) → Usable s q o → free s q ≡ true
  Usable-free s q o h = ground (arith, h.known, h.unread)

  -- A done promise is not a pending one.
  pub apart : (s : Store S) (q r : ℕ) (o : Outcome) → Usable s q o → Waits s r → r ≢ q
  apart s q r o h w = λ e. ground (arith, h.done, w.pending.undone, e)

  pub made-Usable : (s : Store S) (q : ℕ) (o : Outcome) → Usable s q o → Usable (made s) q o
  made-Usable s q o h = record {
    known = omega (arith, h.known);
    done = ap outcome (made-other s q h.known) ∙ h.done;
    unread = ap (λ c. c.readers) (made-other s q h.known) ∙ h.unread;
  }

  pub reported-Usable :
      (s : Store S) (o' : Outcome) (r q : ℕ) (o : Outcome)
      → r ≢ q
      → Usable s q o
      → Usable (reported o' r s) q o
  reported-Usable s o' r q o n h = record {
    known = omega (arith, reported-next o' r s, h.known);
    done = ap outcome (reported-other o' r q s n) ∙ h.done;
    unread = reported-readers o' r s q ∙ h.unread;
  }

  pub detached-Usable :
      (s : Store S) (p q : ℕ) (o : Outcome) → Usable s q o → Usable (detached p s) q o
  detached-Usable s p q o h = record {
    known = omega (arith, detached-next s p, h.known);
    done = detached-outcome s p q ∙ h.done;
    unread = detached-readers s p q ∙ h.unread;
  }

  -- A pending promise that was settled is done.
  pub settled-Usable : (s : Store S) (o : Outcome) (r : ℕ) → Waits s r → Usable (reported o r s) r o
  settled-Usable s o r h = record {
    known = omega (arith, reported-next o r s, h.pending.quiet.known);
    done = reported-outcome o r s h.pending.undone;
    unread = reported-readers o r s r ∙ h.pending.quiet.unread;
  }

  pub made-Waits : (s : Store S) (r : ℕ) → Waits s r → Waits (made s) r
  made-Waits s r h = record {
    pending = made-Pending s r h.pending;
    unused = ap (λ c. c.rejected) (made-other s r h.pending.quiet.known) ∙ h.unused;
  }

  pub blank-Waits : (s : Store S) (r : ℕ) → r < s.next → s.cell r ≡ blank true false → Waits s r
  blank-Waits s r l e = record {
    pending = record {
      quiet = record { known = l; open_ = rw e; unread = rw e; idle = rw e };
      undone = rw e;
      alone = rw e;
    };
    unused = rw e;
  }

  pub new-Waits : (s : Store S) → Waits (made s) s.next
  new-Waits s = blank-Waits (made s) s.next (omega arith) (rw (==_refl s.next))

  -- Nothing but the numbers of promises changes for `r`.
  pub same-Waits :
      (s s' : Store S) (r : ℕ) → s.next ≤ s'.next → s'.cell r ≡ s.cell r → Waits s r → Waits s' r
  same-Waits s s' r n e h = record {
    pending = same-Pending s s' r n e h.pending;
    unused = rw e h.unused;
  }

  pub reported-Waits :
      (s : Store S) (o : Outcome) (p r : ℕ) → p ≢ r → Waits s r → Waits (reported o p s) r
  reported-Waits s o p r n h =
      same-Waits s (reported o p s) r (omega (arith, reported-next o p s))
        (reported-other o p r s n) h

  pub detached-Waits : (s : Store S) (p r : ℕ) → p ≢ r → Waits s r → Waits (detached p s) r
  detached-Waits s p r n h =
      same-Waits s (detached p s) r (omega (arith, detached-next s p)) (detached-other s p r n) h

  -- A promise that is made done, beside another that is done.
  pub made_done-Usable :
      (s : Store S) (o' : Outcome) (q : ℕ) (o : Outcome)
      → Usable s q o
      → Usable (made_done o' s) q o
  made_done-Usable s o' q o h =
      reported-Usable (made s) o' s.next q o (omega (arith, h.known)) (made-Usable s q o h)

  pub made_done-new : (s : Store S) (o : Outcome) → Usable (made_done o s) s.next o
  made_done-new s o = settled-Usable (made s) o s.next (new-Waits s)

  pub made_done-Waits : (s : Store S) (o : Outcome) (r : ℕ) → Waits s r → Waits (made_done o s) r
  made_done-Waits s o r h =
      reported-Waits (made s) o s.next r (omega (arith, h.pending.quiet.known)) (made-Waits s r h)
