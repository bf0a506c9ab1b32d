-- ===== src/Scheduler.antt =====
-- The scheduling of scheduler/: the tasks and the loop that runs them, the timers, and the events of
-- the io scheduler.
pub mod Tasks
pub mod Run
pub mod Control
pub mod Timer
pub mod Io
mod Tests
