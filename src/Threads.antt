-- ===== src/Threads.antt =====
-- thread_code: producers and consumers, over a ring with semaphores and over a list with a condition variable.
pub mod Sem
pub mod Cond
mod Tests
