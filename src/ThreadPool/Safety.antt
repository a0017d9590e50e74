-- ===== src/ThreadPool/Safety.antt =====
-- What holds of a pool in every state that its threads can reach from `threadpool_create`.
use linux_api_and_socket_pro.Common.{
  ℕ, ◌≤◌, ◌<◌, ◌≡◌, refl, sym, subst, Bool, false, some, arith, length, total-replicate,
}
use linux_api_and_socket_pro.ThreadPool.State.{ThreadPool, ready}
use linux_api_and_socket_pro.ThreadPool.Create.{Answers, created, threadpool_create}
use linux_api_and_socket_pro.ThreadPool.System.{System, count_started, Reach, here, next, launched}
use linux_api_and_socket_pro.ThreadPool.System.Inv.{is_busy, is_live, Counted, InOrder}
use linux_api_and_socket_pro.ThreadPool.System.Keep.{
  count_started-le, Step-Counted, shutdown-Step, Step-InOrder,
}

created-of-create :
    (a : Answers) (lo hi size : ℕ) {p : ThreadPool}
    → (threadpool_create a lo hi size).0 ≡ some p
    → p ≡ created a lo hi size
unfolding threadpool_create
created-of-create a lo hi size h = ground arith

Counted-launched :
    (starts : ℕ → Bool) (p : ThreadPool)
    → p.busy_thr_num ≡ 0
    → p.min_thr_num ≡ p.live_thr_num
    → p.live_thr_num ≤ p.max_thr_num
    → Counted (launched starts p)
Counted-launched starts p b l m = ground (
  arith,
  count_started-le starts p.live_thr_num 0,
  total-replicate is_busy (count_started starts p.live_thr_num 0) ready,
  total-replicate is_live (count_started starts p.live_thr_num 0) ready,
)

Reach-Counted : {s t : System} → Reach s t → Counted s → Counted t
Reach-Counted here c = c
Reach-Counted (next r st) c = Step-Counted st (Reach-Counted r c)

Reach-InOrder : {s t : System} → Reach s t → t.pool.shutdown ≡ false → InOrder s → InOrder t
Reach-InOrder here h o = o
Reach-InOrder (next r st) h o =
    let up = shutdown-Step st h in Step-InOrder st up (Reach-InOrder r up o)

module _ (a : Answers) (lo hi size : ℕ) {p : ThreadPool}
    (made : (threadpool_create a lo hi size).0 ≡ some p) {s : System}
    (reach : Reach (launched a.starts p) s) where
  is_created : p ≡ created a lo hi size
  is_created = created-of-create a lo hi size made

  -- If the pool was created with `min_thr_num` not above `max_thr_num`, then in every state that its
  -- threads reach, also after a shutdown, `busy_thr_num` is the number of workers inside a callback,
  -- `live_thr_num` is the number of workers that have not left as surplus and of calls of `pthread_create` for a
  -- worker that have failed, and it lies between the two limits.
  pub counters_match : lo ≤ hi → Counted s
  unfolding created
  counters_match le = Reach-Counted reach (
      subst (λ q. Counted (launched a.starts q)) (sym is_created)
        (Counted-launched a.starts _ refl refl le))

  -- If the pool was created with `min_thr_num` not above `max_thr_num`, and the task array has `queue_max_size` slots
  -- and that is not 0, then in every state that the threads reach, and in which the pool is not shut down, the tasks
  -- submitted are those that workers have taken from the queue, in the order in which they were taken, followed by
  -- those in the queue; the queue indices are in range. Nothing is said of the order in which callbacks start.
  pub tasks-InOrder :
      lo ≤ hi → 0 < size → length a.old_tasks ≡ size → s.pool.shutdown ≡ false → InOrder s
  unfolding created
  tasks-InOrder le pos len up =
      Reach-InOrder reach up (subst (λ q. InOrder (launched a.starts q)) (sym is_created) start)
    where
      start : InOrder (launched a.starts (created a lo hi size))
      start = record { valid = ground arith; fifo = refl }
