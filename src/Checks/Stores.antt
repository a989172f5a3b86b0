-- ===== src/Checks/Stores.antt =====
-- Stores and functions for the programs below.
use jspro_cpp.Prelude.{ℕ, refl, true, false, some, arith}
use jspro_cpp.Runtime.Value.{num, void, user, Exn, Value, Outcome, fulfilled, rejected}
use jspro_cpp.Runtime.Code.{Code}
use jspro_cpp.Runtime.Cell.{Cell, blank}
use jspro_cpp.Runtime.Store.{Store, empty, write}
use jspro_cpp.Machine.Returns.{made}
use jspro_cpp.Machine.Delivery.{Pending}

-- A store with one promise, pending, and with one that is done.
abbrev pub pending_store : Store ℕ
pending_store = made (empty 0)

abbrev pub done_cell : Outcome → Cell ℕ
done_cell (fulfilled v) = record (blank true false) { value = some v; resolved = true }
done_cell (rejected e) = record (blank true false) { exception = some e; resolved = true }

abbrev pub done_store : Outcome → Store ℕ
done_store o = write 0 (done_cell o) pending_store

pub pending_store-Pending : Pending pending_store 0
pending_store-Pending = record {
  quiet = record { known = omega arith; open_ = refl; unread = refl; idle = refl };
  undone = refl;
  alone = refl;
}

abbrev pub seven : Outcome
seven = fulfilled (num 7)

abbrev pub failed : Outcome
failed = rejected (user 1)

-- Functions that return a value, handle an exception, and throw.
abbrev pub answer : Value → Code ℕ
answer v = Code.ret (num 8)

abbrev pub handle : Exn → Code ℕ
handle e = Code.ret (num 9)

abbrev pub fail : Value → Code ℕ
fail v = Code.throw (user 2)

abbrev pub after : ℕ → Code ℕ
after r = Code.ret void
