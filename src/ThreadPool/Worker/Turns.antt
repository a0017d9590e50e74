-- ===== src/ThreadPool/Worker/Turns.antt =====
-- What a worker does with the pool that it finds under the lock.
use linux_api_and_socket_pro.Common.{
  ◌-◌, ◌<◌, ◌≡◌, ◌↔◌, Bool, true, false, ◌&&◌, List, [], ◌∷◌, arith, ltb, if◌then◌else◌,
}
use linux_api_and_socket_pro.ThreadPool.State.{
  Task, ThreadPool, pool_lock, queue_not_full, queue_not_empty, Call, unlock, wait, broadcast,
  Worker, waiting, taken, retired, stopped,
}
use linux_api_and_socket_pro.ThreadPool.Queue.Inv.{IsValid, contents, length-window}
use linux_api_and_socket_pro.ThreadPool.Queue.Refine.{contents-take_task}
use linux_api_and_socket_pro.ThreadPool.Worker.{worker_test, worker_wake}

-- What a worker should do with a queue of tasks, and what is left of the queue.
abbrev pub turn_spec : (shutdown : Bool) → List Task → Worker × List Task × List Call
turn_spec true q = (stopped, q, unlock pool_lock ∷ [])
turn_spec false [] = (waiting, [], wait queue_not_empty ∷ [])
turn_spec false (task ∷ q) = (taken task, q, broadcast queue_not_full ∷ unlock pool_lock ∷ [])

-- On a sound pool a worker that tests the queue leaves if the pool is shut down, with the tasks that are
-- left still queued; otherwise it waits if no task is queued, and takes the oldest if there is one. When it
-- takes one it wakes every caller of `threadpool_add` that waits for room, and releases the lock.
pub worker_test_lem :
    (p : ThreadPool)
    → IsValid p
    → let t = worker_test p in
      (t.next, contents t.pool, t.calls) ≡ turn_spec p.shutdown (contents p)
unfolding worker_test
worker_test_lem p v = ground (
  arith,
  contents-take_task p v,
  length-window p.tasks p.queue_max_size p.queue_front p.queue_size,
)

-- On a sound pool a worker that wakes up leaves as surplus exactly if threads are asked to leave and more
-- than `min_thr_num` live, whatever is queued; otherwise it tests the queue as above. One request to
-- leave, if there is any, is used up in both cases.
pub worker_wake_lem :
    (p : ThreadPool)
    → IsValid p
    → let t = worker_wake p in
      ((t.next ≡ retired) ↔ ((0 < p.wait_exit_thr_num) × (p.min_thr_num < p.live_thr_num)))
      × (t.pool.wait_exit_thr_num ≡ p.wait_exit_thr_num - 1)
      × ((t.next, contents t.pool, t.calls) ≡ (
          if ltb 0 p.wait_exit_thr_num && ltb p.min_thr_num p.live_thr_num
          then (retired, contents p, unlock pool_lock ∷ [])
          else turn_spec p.shutdown (contents p)))
unfolding worker_wake
worker_wake_lem p v = (
  ((λ r. ground arith), λ h. ground arith),
  ground arith,
  ground (
    arith,
    contents-take_task p v,
    length-window p.tasks p.queue_max_size p.queue_front p.queue_size,
  ),
)
