-- ===== src/ThreadPool/Worker.antt =====
-- `threadpool_thread`: the critical sections of a worker, each from its lock to the next wait or unlock.
pub mod Turns
use linux_api_and_socket_pro.Common.{
  ℕ, zero, suc, ◌+◌, ◌-◌, ◌*◌, ◌/◌, ◌%◌, ◌^◌, ◌≤◌, ◌<◌, min, ◌≡◌, refl, sym, ap, ap₂, subst, ◌∙◌,
  ◌≢◌, ◌↔◌, ◌⊎◌, inl, inr, Bool, true, false, not, ◌&&◌, ◌||◌, Option, none, some, List, [], ◌∷◌,
  ◌++◌, map, append-nil, append_assoc, arith, dec_lt, dec_le, ℕ_discrete, ltb, leb, ◌==◌,
  if◌then◌else◌, ==_iff, ==_refl, Bool-cases, Option-cases, codes, length, get_or, set, take, drop,
  replicate, All, length-append, length-set, length-replicate, get_or-set_self, get_or-set_ne,
  take-append-drop, length-take, length-drop, All-append,
}
use linux_api_and_socket_pro.ThreadPool.State.{
  ThreadPool, Call, unlock, wait, pool_lock, queue_not_empty, Worker, waiting, taken, retired,
  stopped,
}
use linux_api_and_socket_pro.ThreadPool.Queue.{take_task}

pub record Turn : Type 0 where
  pub pool : ThreadPool
  pub next : Worker
  pub calls : List Call

unfoldable pub worker_waits : ThreadPool → Bool
worker_waits p = (p.queue_size == 0) && not p.shutdown

-- From the test of the inner loop, under the lock: block, leave, or take a task.
unfoldable pub worker_test : ThreadPool → Turn
unfolding worker_waits take_task
worker_test p =
    let (task, rest, calls) = take_task p in
    if worker_waits p
    then record { pool = p; next = waiting; calls = wait queue_not_empty ∷ [] }
    else if p.shutdown
    then record { pool = p; next = stopped; calls = unlock pool_lock ∷ [] }
    else record { pool = rest; next = taken task; calls = calls }

-- From the return of `pthread_cond_wait`: a surplus thread leaves, another tests again.
unfoldable pub worker_wake : ThreadPool → Turn
unfolding worker_test
worker_wake p =
    let p' = record p { wait_exit_thr_num = p.wait_exit_thr_num - 1 } in
    if ltb 0 p.wait_exit_thr_num
    then (if ltb p.min_thr_num p.live_thr_num
        then record {
          pool = record p' { live_thr_num = p.live_thr_num - 1 };
          next = retired;
          calls = unlock pool_lock ∷ [];
        }
        else worker_test p')
    else worker_test p

-- The two sections on `thread_counter`, before and after the callback.
unfoldable pub task_begin : ThreadPool → ThreadPool
task_begin p = record p { busy_thr_num = p.busy_thr_num + 1 }

unfoldable pub task_end : ThreadPool → ThreadPool
task_end p = record p { busy_thr_num = p.busy_thr_num - 1 }
