-- ===== src/ThreadPool/System/Keep.antt =====
-- Each step of the threads keeps the invariants.
use linux_api_and_socket_pro.Common.{
  ℕ, zero, suc, ◌+◌, ◌≤◌, ◌<◌, ◌≡◌, refl, sym, ap, subst, ◌∙◌, ◌≢◌, Bool, false, [], ◌∷◌, ◌++◌,
  append_assoc, arith, get_or, replicate, total-append, total-replicate, total-set,
}
use linux_api_and_socket_pro.ThreadPool.State.{
  Task, ThreadPool, Worker, ready, waiting, running, retired,
}
use linux_api_and_socket_pro.ThreadPool.Create.{destroy_mark}
use linux_api_and_socket_pro.ThreadPool.Queue.{add_waits, add_task}
use linux_api_and_socket_pro.ThreadPool.Queue.Inv.{IsValid, contents}
use linux_api_and_socket_pro.ThreadPool.Queue.Refine.{
  add_task-IsValid, contents-add_task, take_task-IsValid, contents-take_task,
}
use linux_api_and_socket_pro.ThreadPool.Worker.{
  Turn, worker_test, worker_wake, task_begin, task_end,
}
use linux_api_and_socket_pro.ThreadPool.Adjust.{Growth, adjust_grow, adjust_shrink}
use linux_api_and_socket_pro.ThreadPool.Adjust.Grow.{Grew, adjust_grow-Grew}
use linux_api_and_socket_pro.ThreadPool.System.{
  System, task_of, turned, count_started, grown, Step, submit, test, wake, begin, finish, grow,
  shrink, destroy,
}
use linux_api_and_socket_pro.ThreadPool.System.Inv.{is_busy, is_live, Counted, InOrder}

-- What a turn on the pool `p` does to the counters: only a worker that retires lowers one.
record TurnCounts (p : ThreadPool) (t : Turn) : Type 0 where
  busy : t.pool.busy_thr_num ≡ p.busy_thr_num
  idle : is_busy t.next ≡ 0
  live : t.pool.live_thr_num + 1 ≡ p.live_thr_num + is_live t.next
  above : is_live t.next ≡ 0 → p.min_thr_num < p.live_thr_num
  least : t.pool.min_thr_num ≡ p.min_thr_num
  most : t.pool.max_thr_num ≡ p.max_thr_num

worker_test-TurnCounts : (p : ThreadPool) → TurnCounts p (worker_test p)
unfolding worker_test
worker_test-TurnCounts p = ground arith

worker_wake-TurnCounts : (p : ThreadPool) → TurnCounts p (worker_wake p)
unfolding worker_wake
worker_wake-TurnCounts p = ground arith

-- A worker that is neither busy nor gone makes a turn.
turned-Counted :
    (s : System) (i : ℕ) (w : Worker) (t : Turn)
    → Counted s
    → get_or s.workers i retired ≡ w
    → w ≢ retired
    → is_busy w ≡ 0
    → TurnCounts s.pool t
    → Counted (turned s i t)
turned-Counted s i w t c at_w ne idle tc = ground (
  arith,
  total-set is_busy s.workers i t.next retired (rw at_w ne),
  total-set is_live s.workers i t.next retired (rw at_w ne),
)

is_live_of_ne : (w : Worker) → w ≢ retired → is_live w ≡ 1
is_live_of_ne w h = ground arith

pub count_started-le : (starts : ℕ → Bool) (n i : ℕ) → count_started starts n i ≤ n
unfolding count_started
count_started-le starts zero i = omega arith
count_started-le starts (suc n) i = ground (arith, count_started-le starts n (i + 1))

grown-Counted :
    (s : System) (starts : ℕ → Bool) (g : Growth)
    → Grew (record { pool = s.pool; add = 0 }) g
    → Counted s
    → Counted (grown s starts g)
grown-Counted s starts g w c = ground (
  arith,
  w.same,
  ap ThreadPool.busy_thr_num w.same,
  count_started-le starts g.add 0,
  total-append is_busy s.workers (replicate (count_started starts g.add 0) ready),
  total-append is_live s.workers (replicate (count_started starts g.add 0) ready),
  total-replicate is_busy (count_started starts g.add 0) ready,
  total-replicate is_live (count_started starts g.add 0) ready,
)

-- Every step keeps the counters right.
pub Step-Counted : {s t : System} → Step s t → Counted s → Counted t
unfolding add_task adjust_shrink destroy_mark task_begin task_end
Step-Counted (submit f a g) c = ground arith
Step-Counted {s} (test i e) c =
    turned-Counted s i ready (worker_test s.pool) c e (λ q. cc) refl (worker_test-TurnCounts s.pool)
Step-Counted {s} (wake i e) c =
    turned-Counted s i waiting (worker_wake s.pool) c e (λ q. cc) refl
      (worker_wake-TurnCounts s.pool)
Step-Counted {s} (begin i t e) c = ground (
  arith,
  total-set is_busy s.workers i (running t) retired (rw e (λ q. cc)),
  total-set is_live s.workers i (running t) retired (rw e (λ q. cc)),
)
Step-Counted {s} (finish i t e) c = ground (
  arith,
  total-set is_busy s.workers i ready retired (rw e (λ q. cc)),
  total-set is_live s.workers i ready retired (rw e (λ q. cc)),
)
Step-Counted {s} (grow kill tid starts seen) c =
    grown-Counted s starts (adjust_grow kill tid seen s.pool)
      (adjust_grow-Grew kill tid seen s.pool) c
Step-Counted (shrink seen) c = ground arith
Step-Counted destroy c = ground arith

-- The flag is never taken back.
pub shutdown-Step : {s t : System} → Step s t → t.pool.shutdown ≡ false → s.pool.shutdown ≡ false
unfolding add_task adjust_shrink destroy_mark task_begin task_end worker_wake
shutdown-Step (submit f a g) h = h
shutdown-Step {s} (test i e) h = ground arith
shutdown-Step {s} (wake i e) h = ground arith
shutdown-Step (begin i t e) h = h
shutdown-Step (finish i t e) h = h
shutdown-Step {s} (grow kill tid starts seen) h =
    ground (arith, ap ThreadPool.shutdown (adjust_grow-Grew kill tid seen s.pool).same)
shutdown-Step (shrink seen) h = ground arith
shutdown-Step destroy h = cc

-- What a turn does to a queue that is not shut down: the task in hand was its first.
record TurnOrder (p : ThreadPool) (t : Turn) : Type 0 where
  valid : IsValid t.pool
  fifo : contents p ≡ task_of t.next ++ contents t.pool

worker_test-TurnOrder :
    (p : ThreadPool) → IsValid p → p.shutdown ≡ false → TurnOrder p (worker_test p)
unfolding worker_test
worker_test-TurnOrder p v up = ground (arith, take_task-IsValid p v, contents-take_task p v)

worker_wake-TurnOrder :
    (p : ThreadPool) → IsValid p → p.shutdown ≡ false → TurnOrder p (worker_wake p)
unfolding worker_wake
worker_wake-TurnOrder p v up = ground (arith, take_task-IsValid p v, contents-take_task p v)

turned-InOrder :
    (s : System) (i : ℕ) (t : Turn) → InOrder s → TurnOrder s.pool t → InOrder (turned s i t)
turned-InOrder s i t o w = record { valid = w.valid; fifo = rw (append_assoc, ← w.fifo) o.fifo }

grown-InOrder :
    (s : System) (starts : ℕ → Bool) (g : Growth)
    → Grew (record { pool = s.pool; add = 0 }) g
    → InOrder s
    → InOrder (grown s starts g)
grown-InOrder s starts g w o = record {
  valid = subst IsValid (sym w.same) (ground arith);
  fifo = o.fifo ∙ ap (λ q. s.dequeued ++ contents q) (sym w.same);
}

submit-InOrder :
    (s : System) (f a : ℕ)
    → s.pool.queue_size < s.pool.queue_max_size
    → InOrder s
    → let t : Task = record { function = f; arg = a } in
      InOrder (record s { pool = (add_task s.pool f a).0; submitted = s.submitted ++ (t ∷ []) })
submit-InOrder s f a room o = record {
  valid = add_task-IsValid s.pool f a o.valid room;
  fifo =
      rw (contents-add_task s.pool f a o.valid room, ← append_assoc)
        (ap (λ l. l ++ (record { function = f; arg = a } ∷ [])) o.fifo);
}

-- While the pool is not shut down, every step keeps the order of the tasks.
pub Step-InOrder : {s t : System} → Step s t → s.pool.shutdown ≡ false → InOrder s → InOrder t
unfolding add_waits adjust_shrink destroy_mark task_begin task_end
Step-InOrder {s} (submit f a g) h o = submit-InOrder s f a (ground arith) o
Step-InOrder {s} (test i e) h o =
    turned-InOrder s i (worker_test s.pool) o (worker_test-TurnOrder s.pool o.valid h)
Step-InOrder {s} (wake i e) h o =
    turned-InOrder s i (worker_wake s.pool) o (worker_wake-TurnOrder s.pool o.valid h)
Step-InOrder (begin i t e) h o = ground arith
Step-InOrder (finish i t e) h o = ground arith
Step-InOrder {s} (grow kill tid starts seen) h o =
    grown-InOrder s starts (adjust_grow kill tid seen s.pool)
      (adjust_grow-Grew kill tid seen s.pool) o
Step-InOrder (shrink seen) h o = ground arith
Step-InOrder destroy h o = ground arith
