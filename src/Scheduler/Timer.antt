-- ===== src/Scheduler/Timer.antt =====
-- scheduler/timer.h and scheduler/timer.cpp: `Defs` and `Expiry` hold the classes Timer and
-- TimerManager, the other modules the proofs.
pub mod Defs
pub mod Expiry
pub mod Sorted
pub mod Invariant
pub mod Requeue
pub mod Due
pub mod Expired
pub mod Handed
pub mod Wait
pub mod Runs
