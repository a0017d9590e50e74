-- ===== src/ThreadPool/Queue.antt =====
-- The circular task queue: `threadpool_add`, and the removal of a task by a worker.
pub mod Inv
pub mod Refine
use linux_api_and_socket_pro.Common.{
  ℕ, ◌+◌, ◌-◌, ◌%◌, Bool, not, ◌&&◌, Option, none, some, List, [], ◌∷◌, ◌++◌, ◌==◌, if◌then◌else◌,
  get_or, set,
}
use linux_api_and_socket_pro.ThreadPool.State.{
  Task, ThreadPool, null_task, Status, success, Call, free, unlock, signal, broadcast, pool_lock,
  queue_not_full, queue_not_empty,
}

-- the test of the `while` on which `threadpool_add` blocks
unfoldable pub add_waits : ThreadPool → Bool
add_waits p = (p.queue_size == p.queue_max_size) && not p.shutdown

-- What `threadpool_add` does from that loop on. After a shutdown it unlocks, and goes on all the same.
unfoldable pub add_task : ThreadPool → ℕ → ℕ → ThreadPool × List Call
add_task p function arg =
    let old = get_or p.tasks p.queue_rear null_task in
    let early : List Call = if p.shutdown then unlock pool_lock ∷ [] else [] in
    let clear : List Call = if old.arg == 0 then [] else free old.arg ∷ [] in
    (
      record p {
        tasks = set p.tasks p.queue_rear (record { function = function; arg = arg });
        queue_rear = (p.queue_rear + 1) % p.queue_max_size;
        queue_size = p.queue_size + 1;
      },
      early ++ (clear ++ (signal queue_not_empty ∷ unlock pool_lock ∷ [])),
    )

-- `threadpool_add`: `views` is the pool as the caller finds it under the lock, at first and after each
-- wake-up. `none` means that it is still blocked at the last of them.
unfoldable pub threadpool_add : List ThreadPool → ℕ → ℕ → Option (Status × (ThreadPool × List Call))
unfolding add_waits add_task
threadpool_add [] function arg = none
threadpool_add (p ∷ views) function arg =
    if add_waits p
    then threadpool_add views function arg
    else some (success, add_task p function arg)

-- The removal of the task at `queue_front`; a worker runs it only where `queue_size` is not 0.
unfoldable pub take_task : ThreadPool → Task × ThreadPool × List Call
take_task p = (
  get_or p.tasks p.queue_front null_task,
  record p { queue_front = (p.queue_front + 1) % p.queue_max_size; queue_size = p.queue_size - 1 },
  broadcast queue_not_full ∷ unlock pool_lock ∷ [],
)
