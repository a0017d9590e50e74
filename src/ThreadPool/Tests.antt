-- ===== src/ThreadPool/Tests.antt =====
-- Runs of the pool on small inputs, and the theorems at them.
use linux_api_and_socket_pro.Common.{
  ℕ, ◌+◌, ◌≤◌, ◌<◌, ◌≡◌, refl, ◌≢◌, ◌↔◌, true, false, none, some, List, [], ◌∷◌, ◌++◌, map, arith,
  get_or, replicate,
}
use linux_api_and_socket_pro.ThreadPool.State.{
  Task, ThreadPool, null_task, success, failure, pool_lock, queue_not_empty, Call, unlock,
  broadcast, join, Worker, running, retired,
}
use linux_api_and_socket_pro.ThreadPool.Demo.{demo_main, demo_tasks, demo_main_lem}
use linux_api_and_socket_pro.ThreadPool.Queue.Inv.{IsValid, contents}
use linux_api_and_socket_pro.ThreadPool.Create.{
  Answers, threadpool_free, created, threadpool_create, threadpool_destroy,
}
use linux_api_and_socket_pro.ThreadPool.Create.Failure.{
  AllGranted, create_succeeds, freed, create_fails,
}
use linux_api_and_socket_pro.ThreadPool.Create.Destroy.{threadpool_destroy_lem}
use linux_api_and_socket_pro.ThreadPool.Queue.{add_waits, add_task, threadpool_add}
use linux_api_and_socket_pro.ThreadPool.Worker.{worker_test, worker_wake, task_begin}
use linux_api_and_socket_pro.ThreadPool.Adjust.{Sample, is_thread_alive, is_vacant, adjust_grow}
use linux_api_and_socket_pro.ThreadPool.Adjust.Grow.{adjust_grow_bounds, adjust_grow-fills}
use linux_api_and_socket_pro.ThreadPool.System.{
  System, count_started, submit, test, begin, Reach, here, next, launched,
}
use linux_api_and_socket_pro.ThreadPool.System.Inv.{Counted, InOrder}
use linux_api_and_socket_pro.ThreadPool.Safety.{counters_match, tasks-InOrder}
use linux_api_and_socket_pro.ThreadPool.Worker.Turns.{turn_spec, worker_test_lem, worker_wake_lem}
use linux_api_and_socket_pro.ThreadPool.Submit.{add_calls, threadpool_add_lem, add_after_shutdown}

abbrev task : ℕ → Task
task n = record { function = 7; arg = n }

-- all requests granted, the queue memory clean
abbrev granted : Answers
granted = record {
  pool = 0x1000;
  threads = 0x2000;
  task_queue = 0x3000;
  old_task_queue = 0xdead;
  old_wait_exit_thr_num = 0;
  old_tasks = null_task ∷ null_task ∷ [];
  lock_init = 0;
  thread_counter_init = 0;
  queue_not_empty_init = 0;
  queue_not_full_init = 0;
  starts = λ i. true;
  tid = λ i. 100 + i;
  adjust_tid = 99;
}

abbrev no_threads : Answers
no_threads = record granted { threads = 0 }

-- one worker, at most three, two slots for tasks
abbrev small : ThreadPool
small = created granted 1 3 2

-- full, with the oldest task in slot 1
abbrev full : ThreadPool
unfolding created
full = record small {
  tasks = task 21 ∷ task 20 ∷ [];
  queue_front = 1;
  queue_rear = 1;
  queue_size = 2;
}

-- one slot is free, and still holds the argument of the task that left it
abbrev one_left : ThreadPool
unfolding created
one_left = record full { queue_rear = 0; queue_size = 1 }

full-IsValid : IsValid full
unfolding created
full-IsValid = omega arith

one_left-IsValid : IsValid one_left
unfolding created
one_left-IsValid = omega arith

threadpool_add_example :
    (threadpool_add (full ∷ []) 7 22 ≡ none)
    × ((q : ThreadPool) × (threadpool_add (full ∷ one_left ∷ []) 7 22
          ≡ some (success, (q, add_calls one_left)))
        × IsValid q
        × (contents q ≡ task 20 ∷ task 22 ∷ []))
unfolding created add_waits
threadpool_add_example =
    threadpool_add_lem (full ∷ []) [] one_left 7 22 (refl, tt) one_left-IsValid (omega arith) refl

add_after_shutdown_test :
    (q : ThreadPool) × (threadpool_add (record full { shutdown = true } ∷ []) 7 22
      ≡ some (success, (q, unlock pool_lock ∷ add_calls (record full { shutdown = true }))))
    × (q.queue_size ≡ q.queue_max_size + 1)
    × (get_or q.tasks q.queue_front null_task ≡ task 22)
unfolding created
add_after_shutdown_test =
    add_after_shutdown [] (record full { shutdown = true }) 7 22 (omega arith) refl refl

create_fails_example : freed (threadpool_create no_threads 1 3 2).1 ≡ 0xdead ∷ 0x1000 ∷ []
unfolding threadpool_create
create_fails_example = create_fails no_threads 1 3 2 refl

create_succeeds_test : (threadpool_create granted 1 3 2 ≡ (some small, [])) ↔ AllGranted granted
create_succeeds_test = create_succeeds granted 1 3 2

-- A task is submitted, and the worker takes it and runs it.
working : System
unfolding created add_task worker_test task_begin
working = record {
  pool = task_begin (worker_test (add_task small 7 20).0).pool;
  workers = running (task 20) ∷ [];
  missing = 0;
  submitted = task 20 ∷ [];
  dequeued = task 20 ∷ [];
}

working-Reach : Reach (launched granted.starts small) working
unfolding working add_waits count_started
working-Reach = next (next (next here (submit 7 20 refl)) (test 0 refl)) (begin 0 (task 20) refl)

counters_match_example : Counted working
unfolding threadpool_create
counters_match_example = counters_match granted 1 3 2 refl working-Reach (omega arith)

tasks-InOrder_example : InOrder working
unfolding threadpool_create working
tasks-InOrder_example =
    tasks-InOrder granted 1 3 2 refl working-Reach (omega arith) (omega arith) refl refl

abbrev surplus : ThreadPool
surplus = record full { wait_exit_thr_num = 10; live_thr_num = 3 }

abbrev left : Worker × List Task × List Call
left = (retired, task 20 ∷ task 21 ∷ [], unlock pool_lock ∷ [])

worker_wake_example :
    let t = worker_wake surplus in
    ((t.next ≡ retired) ↔ ((0 < 10) × (surplus.min_thr_num < 3)))
    × (t.pool.wait_exit_thr_num ≡ 9)
    × ((t.next, contents t.pool, t.calls) ≡ left)
unfolding created
worker_wake_example = worker_wake_lem surplus (omega arith)

worker_test_example :
    let t = worker_test full in
    (t.next, contents t.pool, t.calls) ≡ turn_spec false (task 20 ∷ task 21 ∷ [])
unfolding created
worker_test_example = worker_test_lem full full-IsValid

-- every thread answers signal 0
abbrev all_alive : ℕ → ℕ → ℕ
all_alive tid signo = 0

abbrev next_tid : ℕ → ℕ
next_tid k = 200 + k

abbrev crowded : Sample
crowded = record { queue_size = 10; live_thr_num = 1; busy_thr_num = 0 }

next_tid-alive : (k : ℕ) → (next_tid k ≢ 0) × (is_thread_alive all_alive (next_tid k) ≡ true)
unfolding is_thread_alive
next_tid-alive k = (omega arith, refl)

-- two threads have left, and still answer the signal
abbrev left_over : ThreadPool
unfolding created
left_over = record small { threads = 100 ∷ 101 ∷ 102 ∷ [] }

-- two of its three slots are counted live
abbrev two_live : ThreadPool
unfolding created
two_live = record left_over { live_thr_num = 2 }

adjust_grow_bounds_example :
    let g = adjust_grow all_alive next_tid crowded small in
    (g.add ≤ 10)
    × (g.pool.live_thr_num ≡ small.live_thr_num + g.add)
    × (g.pool.live_thr_num ≤ small.max_thr_num)
    × (g.pool ≡ record small { threads = g.pool.threads; live_thr_num = g.pool.live_thr_num })
unfolding created
adjust_grow_bounds_example = adjust_grow_bounds all_alive next_tid crowded small (omega arith)

grown_twice : (adjust_grow all_alive next_tid crowded small).pool.threads ≡ 100 ∷ 200 ∷ 201 ∷ []
unfolding adjust_grow created is_vacant
grown_twice = refl

adjust_grow-fills_test :
    is_vacant all_alive (adjust_grow all_alive next_tid crowded left_over).pool 2 ≡ false
unfolding adjust_grow created is_vacant
adjust_grow-fills_test =
    adjust_grow-fills all_alive next_tid next_tid-alive crowded left_over refl refl refl 2
      (omega arith)

threadpool_destroy_example :
    (threadpool_destroy 0 small [] [] ≡ (failure, []))
    × (threadpool_destroy 0x1000 small (replicate 3 two_live) (replicate 3 two_live) ≡ (
      success,
      join 99
          ∷ (replicate 2 (broadcast queue_not_empty)
              ++ (map join (100 ∷ 101 ∷ []) ++ (threadpool_free 0x1000 0x3000 0x2000).1)),
    ))
unfolding created
threadpool_destroy_example =
    threadpool_destroy_lem 0x1000 2 small two_live (omega arith) refl (omega arith)

demo_main_test :
    (q : ThreadPool) × (demo_main (record granted { old_tasks = replicate 100 null_task }) 7 1000
      ≡ some q)
    × IsValid q
    × (contents q ≡ demo_tasks 7 1000 20 0)
demo_main_test =
    demo_main_lem (record granted { old_tasks = replicate 100 null_task }) 7 1000 (omega arith) refl
