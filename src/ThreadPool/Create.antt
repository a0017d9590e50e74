-- ===== src/ThreadPool/Create.antt =====
-- `threadpool_create`, `threadpool_free`, `threadpool_destroy` and the two counter queries.
pub mod Failure
pub mod Destroy
use linux_api_and_socket_pro.Common.{
  ℕ, zero, suc, ◌+◌, ◌-◌, ◌*◌, ◌/◌, ◌%◌, ◌^◌, ◌≤◌, ◌<◌, min, ◌≡◌, refl, sym, ap, ap₂, subst, ◌∙◌,
  ◌≢◌, ◌↔◌, ◌⊎◌, inl, inr, Bool, true, false, not, ◌&&◌, ◌||◌, Option, none, some, List, [], ◌∷◌,
  ◌++◌, map, append-nil, append_assoc, arith, dec_lt, dec_le, ℕ_discrete, ltb, leb, ◌==◌,
  if◌then◌else◌, ==_iff, ==_refl, Bool-cases, Option-cases, codes, length, get_or, set, take, drop,
  replicate, All, length-append, length-set, length-replicate, get_or-set_self, get_or-set_ne,
  take-append-drop, length-take, length-drop, All-append,
}
use linux_api_and_socket_pro.ThreadPool.State.{
  Task, ThreadPool, null_task, min_wait_task_num, default_thread_vary, esrch, Status, success,
  failure, Mutex, pool_lock, thread_counter, Condition, queue_not_full, queue_not_empty, Call, free,
  lock, unlock, mutex_destroy, wait, signal, broadcast, cond_destroy, join, Worker, ready, waiting,
  taken, running, retired, stopped,
}

-- What the C library answers to one run of `threadpool_create`: the addresses that `malloc` returns
-- (0 is NULL), the old contents of the memory that it hands out, return codes, and thread ids.
pub record Answers : Type 0 where
  pub pool : ℕ
  pub threads : ℕ
  pub task_queue : ℕ
  pub old_task_queue : ℕ  -- old contents of the field `task_queue`
  pub old_wait_exit_thr_num : ℕ
  pub old_tasks : List Task
  pub lock_init : ℕ
  pub thread_counter_init : ℕ
  pub queue_not_empty_init : ℕ
  pub queue_not_full_init : ℕ
  pub starts : ℕ → Bool  -- whether the `pthread_create` for a slot starts a thread
  pub tid : ℕ → ℕ  -- what the slot holds after that call, also after one that fails
  pub adjust_tid : ℕ

-- `threadpool_free` of the pool at the address `pool`, with the contents of its two block pointers.
unfoldable pub threadpool_free : (pool task_queue threads : ℕ) → Status × List Call
threadpool_free pool task_queue threads =
    let queue_part : List Call = if task_queue == 0 then [] else free task_queue ∷ [] in
    let threads_part : List Call =
      if threads == 0
      then []
      else free threads
        ∷ lock pool_lock
        ∷ mutex_destroy pool_lock
        ∷ lock thread_counter
        ∷ mutex_destroy thread_counter
        ∷ cond_destroy queue_not_empty
        ∷ cond_destroy queue_not_full
        ∷ [] in
    if pool == 0 then (failure, []) else (success, queue_part ++ (threads_part ++ (free pool ∷ [])))

-- The loop that starts workers from slot `i` on: `pthread_create` stores an id in its slot. Its result is not
-- looked at. A slot behind the table, which `min_thr_num` above `max_thr_num` leads to, is no case of the model.
unfoldable pub start_workers : (ℕ → ℕ) → ℕ → ℕ → List ℕ → List ℕ
start_workers tid zero i threads = threads
start_workers tid (suc n) i threads = start_workers tid n (i + 1) (set threads i (tid i))

unfoldable pub inits_succeed : Answers → Bool
inits_succeed a =
    (a.lock_init == 0)
    && ((a.thread_counter_init == 0)
        && ((a.queue_not_empty_init == 0) && (a.queue_not_full_init == 0)))

-- The pool on the path without failures. Neither `wait_exit_thr_num` nor the task array is assigned.
unfoldable pub created : Answers → (min_thr_num max_thr_num queue_max_size : ℕ) → ThreadPool
unfolding start_workers
created a min_thr_num max_thr_num queue_max_size = record {
  threads_block = a.threads;
  threads = start_workers a.tid min_thr_num 0 (replicate max_thr_num 0);
  adjust_tid = a.adjust_tid;
  task_queue = a.task_queue;
  tasks = a.old_tasks;
  min_thr_num = min_thr_num;
  max_thr_num = max_thr_num;
  live_thr_num = min_thr_num;
  busy_thr_num = 0;
  wait_exit_thr_num = a.old_wait_exit_thr_num;
  queue_front = 0;
  queue_rear = 0;
  queue_size = 0;
  queue_max_size = queue_max_size;
  shutdown = false;
}

-- Each `break` ends in `threadpool_free`, with the block pointers as they are by then.
unfoldable pub threadpool_create :
    Answers → (min_thr_num max_thr_num queue_max_size : ℕ) → Option ThreadPool × List Call
unfolding threadpool_free inits_succeed created
threadpool_create a min_thr_num max_thr_num queue_max_size =
    if a.pool == 0
    then (none, (threadpool_free 0 0 0).1)
    else if a.threads == 0
    then (none, (threadpool_free a.pool a.old_task_queue 0).1)
    else if a.task_queue == 0
    then (none, (threadpool_free a.pool 0 a.threads).1)
    else if inits_succeed a
    then (some (created a min_thr_num max_thr_num queue_max_size), [])
    else (none, (threadpool_free a.pool a.task_queue a.threads).1)

-- The two loops of `threadpool_destroy`. The list is the pool at each evaluation of a loop's test,
-- which reads `live_thr_num` again every time.
unfoldable pub broadcast_loop : List ThreadPool → ℕ → List Call
broadcast_loop [] i = []
broadcast_loop (p ∷ views) i =
    if ltb i p.live_thr_num then broadcast queue_not_empty ∷ broadcast_loop views (i + 1) else []

unfoldable pub join_loop : List ThreadPool → ℕ → List Call
join_loop [] i = []
join_loop (p ∷ views) i =
    if ltb i p.live_thr_num then join (get_or p.threads i 0) ∷ join_loop views (i + 1) else []

-- the store to `shutdown` with which `threadpool_destroy` begins, without the lock
unfoldable pub destroy_mark : ThreadPool → ThreadPool
destroy_mark p = record p { shutdown = true }

-- `threadpool_destroy` of the pool at the address `pool`, behind the store of `destroy_mark`: status, and calls.
unfoldable pub threadpool_destroy :
    (pool : ℕ) → ThreadPool → (awake gone : List ThreadPool) → Status × List Call
unfolding broadcast_loop join_loop threadpool_free
threadpool_destroy pool p awake gone = if pool == 0 then (failure, []) else (
  success,
  join p.adjust_tid
      ∷ (broadcast_loop awake 0
          ++ (join_loop gone 0 ++ (threadpool_free pool p.task_queue p.threads_block).1)),
)

-- the two queries, each one read under its own lock
unfoldable pub threadpool_all_threadnum : ThreadPool → ℕ
threadpool_all_threadnum p = p.live_thr_num

unfoldable pub threadpool_busy_threadnum : ThreadPool → ℕ
threadpool_busy_threadnum p = p.busy_thr_num
