-- ===== src/ThreadPool/System.antt =====
-- The threads of a pool, interleaved: each section under a lock of threadpool.c is one step.
pub mod Inv
pub mod Keep
use linux_api_and_socket_pro.Common.{
  ℕ, zero, suc, ◌+◌, ◌-◌, ◌*◌, ◌/◌, ◌%◌, ◌^◌, ◌≤◌, ◌<◌, min, ◌≡◌, refl, sym, ap, ap₂, subst, ◌∙◌,
  ◌≢◌, ◌↔◌, ◌⊎◌, inl, inr, Bool, true, false, not, ◌&&◌, ◌||◌, Option, none, some, List, [], ◌∷◌,
  ◌++◌, map, append-nil, append_assoc, arith, dec_lt, dec_le, ℕ_discrete, ltb, leb, ◌==◌,
  if◌then◌else◌, ==_iff, ==_refl, ne_test, Bool-cases, Option-cases, codes, length, get_or, set,
  take, drop, replicate, All, length-append, length-set, length-replicate, get_or-set_self,
  get_or-set_ne, take-append-drop, length-take, length-drop, All-append, total, total-nil,
  total-cons, total-append, total-replicate, total-set, total-ge,
}
use linux_api_and_socket_pro.ThreadPool.State.{
  Task, ThreadPool, null_task, min_wait_task_num, default_thread_vary, esrch, Status, success,
  failure, Mutex, pool_lock, thread_counter, Condition, queue_not_full, queue_not_empty, Call, free,
  lock, unlock, mutex_destroy, wait, signal, broadcast, cond_destroy, join, Worker, ready, waiting,
  taken, running, retired, stopped,
}
use linux_api_and_socket_pro.ThreadPool.Create.{
  Answers, threadpool_free, start_workers, inits_succeed, created, threadpool_create,
  broadcast_loop, join_loop, destroy_mark, threadpool_destroy, threadpool_all_threadnum,
  threadpool_busy_threadnum,
}
use linux_api_and_socket_pro.ThreadPool.Queue.{add_waits, add_task, threadpool_add, take_task}
use linux_api_and_socket_pro.ThreadPool.Worker.{
  Turn, worker_waits, worker_test, worker_wake, task_begin, task_end,
}
use linux_api_and_socket_pro.ThreadPool.Adjust.{
  Sample, sample, is_thread_alive, is_vacant, Growth, wants_more, grow_goes_on, grow_slot,
  grow_from, adjust_grow, adjust_shrink,
}

-- The pool, every worker ever started, and two logs: the tasks handed to `threadpool_add`, and those
-- that workers have taken from the queue, in the order in which they were taken. `missing` counts the calls of
-- `pthread_create` for a worker that have started none.
pub record System : Type 0 where
  pub pool : ThreadPool
  pub workers : List Worker
  pub missing : ℕ
  pub submitted : List Task
  pub dequeued : List Task

-- what a worker's move takes from the queue
abbrev pub task_of : Worker → List Task
task_of (taken t) = t ∷ []
task_of _ = []

-- the system after worker `i` has made the turn `t`
abbrev pub turned : System → ℕ → Turn → System
turned s i t = record s {
  pool = t.pool;
  workers = set s.workers i t.next;
  dequeued = s.dequeued ++ task_of t.next;
}

-- how many of `n` calls of `pthread_create`, from call `i` on, start a thread
unfoldable pub count_started : (starts : ℕ → Bool) → (n i : ℕ) → ℕ
count_started starts zero i = 0
count_started starts (suc n) i =
    let later = count_started starts n (i + 1) in if starts i then later + 1 else later

-- the system after the manager has made the calls of `g`
abbrev pub grown : System → (starts : ℕ → Bool) → Growth → System
grown s starts g =
    let n = count_started starts g.add 0 in
    record s {
      pool = g.pool;
      workers = s.workers ++ replicate n ready;
      missing = s.missing + (g.add - n);
    }

-- Who moves next is open, and so are spurious wake-ups and the age of the manager's sample.
pub data Step (s : System) : System → Type 0 where
  submit :
      (function arg : ℕ)
      → add_waits s.pool ≡ false
      → Step s (record s {
        pool = (add_task s.pool function arg).0;
        submitted = s.submitted ++ (record { function = function; arg = arg } ∷ []);
      })
  test : (i : ℕ) → get_or s.workers i retired ≡ ready → Step s (turned s i (worker_test s.pool))
  wake : (i : ℕ) → get_or s.workers i retired ≡ waiting → Step s (turned s i (worker_wake s.pool))
  begin :
      (i : ℕ) (t : Task)
      → get_or s.workers i retired ≡ taken t
      → Step s (record s { pool = task_begin s.pool; workers = set s.workers i (running t) })
  finish :
      (i : ℕ) (t : Task)
      → get_or s.workers i retired ≡ running t
      → Step s (record s { pool = task_end s.pool; workers = set s.workers i ready })
  grow :
      (pthread_kill : ℕ → ℕ → ℕ) (new_tid : ℕ → ℕ) (starts : ℕ → Bool) (seen : Sample)
      → Step s (grown s starts (adjust_grow pthread_kill new_tid seen s.pool))
  shrink : (seen : Sample) → Step s (record s { pool = (adjust_shrink seen s.pool).0 })
  destroy : Step s (record s { pool = destroy_mark s.pool })

pub data Reach (s : System) : System → Type 0 where
  here : Reach s s
  next : {t u : System} → Reach s t → Step t u → Reach s u

-- a pool that `threadpool_create` has just returned, its workers at the head of their loops
abbrev pub launched : (starts : ℕ → Bool) → ThreadPool → System
launched starts p = record {
  pool = p;
  workers = replicate (count_started starts p.live_thr_num 0) ready;
  missing = p.live_thr_num - count_started starts p.live_thr_num 0;
  submitted = [];
  dequeued = [];
}
