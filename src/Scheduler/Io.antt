-- ===== src/Scheduler/Io.antt =====
-- The events that class IOScheduler of scheduler/ioscheduler.h and scheduler/ioscheduler.cpp waits
-- for.
pub mod Defs
pub mod Handle
pub mod Contexts
pub mod Invariant
pub mod CancelAll
pub mod Register
pub mod Dispatch
mod Tests
