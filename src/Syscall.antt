-- ===== src/Syscall.antt =====
-- The system calls' handlers, a module for each source file.
pub mod BQueue
pub mod Schedule
pub mod Shutdown
pub mod Sleep
pub mod Fork
pub mod Wait
pub mod Exit
pub mod Resources
