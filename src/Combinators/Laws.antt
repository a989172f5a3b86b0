-- ===== src/Combinators/Laws.antt =====
-- `Then`, `Catch` and `Finally` with plain functions settle the promise that they return as the
-- relations of `Spec` say, on a promise that is done and on one that is settled later.
pub mod ThenLaws
pub mod CatchLaws
pub mod FinallyLaws
pub mod AllLaws
pub mod HeldLock
pub mod States
pub mod RaceLaws
pub mod Tracked
pub mod Spared
pub mod ForwardLaws
pub mod AsyncLaws
pub mod Starting
pub mod Refusing
pub mod TupleLaws
pub mod PackLaws
pub mod AllLater
pub mod AllResumed
pub mod RaceChain
pub mod RaceFires
pub mod RaceRuns
pub mod RaceEnters
pub mod RaceBuilds
pub mod RaceWaiting
pub mod RaceSeats
pub mod RaceLater
pub mod Moved
