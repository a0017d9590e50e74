-- ===== src/ThreadPool/System/Inv.antt =====
-- What holds of a pool and its workers between steps.
use linux_api_and_socket_pro.Common.{ℕ, ◌+◌, ◌≤◌, ◌≡◌, ◌++◌, total}
use linux_api_and_socket_pro.ThreadPool.State.{Worker, running, retired}
use linux_api_and_socket_pro.ThreadPool.Queue.Inv.{IsValid, contents}
use linux_api_and_socket_pro.ThreadPool.System.{System}

-- inside a callback, as `busy_thr_num` counts
abbrev pub is_busy : Worker → ℕ
is_busy (running _) = 1
is_busy _ = 0

-- not left as a surplus thread, as `live_thr_num` counts: an exit at shutdown does not lower it
abbrev pub is_live : Worker → ℕ
is_live retired = 0
is_live _ = 1

-- The counters match the threads and the failed calls of `pthread_create`, and stay in their range, before and after a shutdown.
pub record Counted (s : System) : Type 0 where
  pub busy : s.pool.busy_thr_num ≡ total is_busy s.workers
  pub live : s.pool.live_thr_num ≡ total is_live s.workers + s.missing
  pub at_least : s.pool.min_thr_num ≤ s.pool.live_thr_num
  pub at_most : s.pool.live_thr_num ≤ s.pool.max_thr_num

-- The queue is sound, and has lost, duplicated and reordered nothing.
pub record InOrder (s : System) : Type 0 where
  pub valid : IsValid s.pool
  pub fifo : s.submitted ≡ s.dequeued ++ contents s.pool
