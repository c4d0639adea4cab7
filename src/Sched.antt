-- ===== src/Sched.antt =====
-- kernel/thread/scheduler.c, with the thread states of kernel/thread/thread.c.
pub mod Core
pub mod Sound
pub mod Switch
pub mod Wake
pub mod Park
pub mod Fair
pub mod Threads
pub mod Guard
mod Examples
