-- ===== src/ThreadPool.antt =====
-- thread_pool/threadpool.c: a pool of worker threads round one circular task queue.
pub mod State
pub mod Create
pub mod Queue
pub mod Worker
pub mod Adjust
pub mod System
pub mod Safety
pub mod Submit
pub mod Demo
mod Tests
