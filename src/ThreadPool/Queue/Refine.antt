-- ===== src/ThreadPool/Queue/Refine.antt =====
-- `threadpool_add` and the removal of a task, against a queue of tasks.
use linux_api_and_socket_pro.Common.{ℕ, ◌<◌, ◌≡◌, ◌≢◌, [], ◌∷◌, ◌++◌, arith, length-set}
use linux_api_and_socket_pro.ThreadPool.State.{ThreadPool}
use linux_api_and_socket_pro.ThreadPool.Queue.{add_task, take_task}
use linux_api_and_socket_pro.ThreadPool.Queue.Inv.{
  IsValid, contents, window_of_pos, window-set, next_rear, next_front,
}

pub add_task-IsValid :
    (p : ThreadPool) (f a : ℕ)
    → IsValid p
    → p.queue_size < p.queue_max_size
    → IsValid (add_task p f a).0
unfolding add_task
add_task-IsValid p f a v room = ground (
  arith,
  length-set p.tasks p.queue_rear (record { function = f; arg = a }),
  next_rear p.queue_front p.queue_size p.queue_max_size,
)

pub contents-add_task :
    (p : ThreadPool) (f a : ℕ)
    → IsValid p
    → p.queue_size < p.queue_max_size
    → contents (add_task p f a).0 ≡ contents p ++ (record { function = f; arg = a } ∷ [])
unfolding add_task
contents-add_task p f a v room =
    window-set p.tasks p.queue_max_size (record { function = f; arg = a }) p.queue_size
      p.queue_front p.queue_rear v.storage v.front_in room v.rear_at

pub take_task-IsValid : (p : ThreadPool) → IsValid p → p.queue_size ≢ 0 → IsValid (take_task p).1
unfolding take_task
take_task-IsValid p v some_task =
    ground (arith, next_front p.queue_front p.queue_size p.queue_max_size)

pub contents-take_task :
    (p : ThreadPool)
    → IsValid p
    → p.queue_size ≢ 0
    → contents p ≡ (take_task p).0 ∷ contents (take_task p).1
unfolding take_task
contents-take_task p v some_task =
    window_of_pos p.tasks p.queue_max_size p.queue_front p.queue_size some_task
