-- ===== src/Hook.antt =====
-- The descriptors that hook/ keeps beside those of the system, and the hooked calls.
pub mod Fd
pub mod Io
pub mod Calls
mod Tests
