-- ===== src/ThreadPool/State.antt =====
-- The data of thread_pool/threadpool.c: the pool, its tasks, and the calls that its code makes.
use linux_api_and_socket_pro.Common.{ℕ, Bool, List}

-- `threadpool_task_t`: the two pointers are addresses, 0 is NULL.
pub record Task : Type 0 where
  pub function : ℕ
  pub arg : ℕ

-- `struct threadpool_t`. `tasks` and `threads` are the contents of the two heap blocks, which stand
-- at the addresses `task_queue` and `threads_block`. The locks and conditions have no contents here:
-- what is done to them is listed as calls.
pub record ThreadPool : Type 0 where
  pub threads_block : ℕ
  pub threads : List ℕ
  pub adjust_tid : ℕ
  pub task_queue : ℕ
  pub tasks : List Task
  pub min_thr_num : ℕ
  pub max_thr_num : ℕ
  pub live_thr_num : ℕ
  pub busy_thr_num : ℕ
  pub wait_exit_thr_num : ℕ
  pub queue_front : ℕ
  pub queue_rear : ℕ
  pub queue_size : ℕ
  pub queue_max_size : ℕ
  pub shutdown : Bool

-- what a zeroed slot of the task array holds
abbrev pub null_task : Task
null_task = record { function = 0; arg = 0 }

abbrev pub min_wait_task_num : ℕ
min_wait_task_num = 10

abbrev pub default_thread_vary : ℕ
default_thread_vary = 10

-- `errno` of "no such process"
abbrev pub esrch : ℕ
esrch = 3

-- the `int` that a call returns: 0, or -1
pub data Status : Type 0 where
  success failure : Status

pub data Mutex : Type 0 where
  pool_lock thread_counter : Mutex

pub data Condition : Type 0 where
  queue_not_full queue_not_empty : Condition

-- The calls of the C library that a piece of code makes, in order.
pub data Call : Type 0 where
  free : (address : ℕ) → Call
  lock : Mutex → Call
  unlock : Mutex → Call
  mutex_destroy : Mutex → Call
  wait : Condition → Call
  signal : Condition → Call
  broadcast : Condition → Call
  cond_destroy : Condition → Call
  join : (tid : ℕ) → Call

-- Where a worker thread stands in `threadpool_thread`.
pub data Worker : Type 0 where
  ready : Worker  -- at the head of the outer loop, before the lock
  waiting : Worker  -- blocked in `pthread_cond_wait`
  taken : (task : Task) → Worker  -- has a task, and has not counted itself busy
  running : (task : Task) → Worker  -- counted busy, inside the callback
  retired : Worker  -- left as a surplus thread
  stopped : Worker  -- left because of the shutdown
