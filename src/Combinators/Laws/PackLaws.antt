-- ===== src/Combinators/Laws/PackLaws.antt =====
-- The promise of `All` over a pack of promises that are done.
-- include/promise/details/helpers.inl
use jspro_cpp.Runtime.Code.{Code}
use jspro_cpp.Runtime.Store.{Store}
use jspro_cpp.Machine.Runs.{Runs}
