-- ===== src/Threads.antt =====
-- src/include/threadlib and src/lib/threadlib: user threads on the processors of several nodes.
pub mod StackPool
pub mod Scheduler
pub mod World
