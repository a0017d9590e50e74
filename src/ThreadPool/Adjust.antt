-- ===== src/ThreadPool/Adjust.antt =====
-- `adjust_thread`, the manager: it samples the counters, starts threads and asks surplus ones to leave.
pub mod Grow
use linux_api_and_socket_pro.Common.{
  ℕ, zero, suc, ◌+◌, ◌-◌, ◌*◌, ◌/◌, ◌%◌, ◌^◌, ◌≤◌, ◌<◌, min, ◌≡◌, refl, sym, ap, ap₂, subst, ◌∙◌,
  ◌≢◌, ◌↔◌, ◌⊎◌, inl, inr, Bool, true, false, not, ◌&&◌, ◌||◌, Option, none, some, List, [], ◌∷◌,
  ◌++◌, map, append-nil, append_assoc, arith, dec_lt, dec_le, ℕ_discrete, ltb, leb, ◌==◌,
  if◌then◌else◌, ==_iff, ==_refl, Bool-cases, Option-cases, codes, length, get_or, set, take, drop,
  replicate, All, length-append, length-set, length-replicate, get_or-set_self, get_or-set_ne,
  take-append-drop, length-take, length-drop, All-append,
}
use linux_api_and_socket_pro.ThreadPool.State.{
  ThreadPool, min_wait_task_num, default_thread_vary, esrch, Call, signal, queue_not_empty,
}

-- what the manager copies under the two locks at the start of a round
pub record Sample : Type 0 where
  pub queue_size : ℕ
  pub live_thr_num : ℕ
  pub busy_thr_num : ℕ

unfoldable pub sample : ThreadPool → Sample
sample p = record {
  queue_size = p.queue_size;
  live_thr_num = p.live_thr_num;
  busy_thr_num = p.busy_thr_num;
}

-- `pthread_kill t 0` is the return code of that call.
unfoldable pub is_thread_alive : (pthread_kill : ℕ → ℕ → ℕ) → ℕ → Bool
is_thread_alive pthread_kill tid = if pthread_kill tid 0 == esrch then false else true

-- the test of a slot for a new thread
unfoldable pub is_vacant : (pthread_kill : ℕ → ℕ → ℕ) → ThreadPool → ℕ → Bool
unfolding is_thread_alive
is_vacant pthread_kill p i =
    let tid = get_or p.threads i 0 in (tid == 0) || not (is_thread_alive pthread_kill tid)

-- the loop that starts threads: its pool, and its counter `add`
pub record Growth : Type 0 where
  pub pool : ThreadPool
  pub add : ℕ

-- the test for more threads: tasks queue up, and the sample allows more threads
unfoldable pub wants_more : Sample → ThreadPool → Bool
wants_more s p = leb min_wait_task_num s.queue_size && ltb s.live_thr_num p.max_thr_num

-- the test of the loop, but for its index
unfoldable pub grow_goes_on : Growth → Bool
grow_goes_on g = ltb g.add default_thread_vary && ltb g.pool.live_thr_num g.pool.max_thr_num

module _ (pthread_kill : ℕ → ℕ → ℕ) (new_tid : ℕ → ℕ) where
  -- The body of the loop. `new_tid k` is what the slot holds after the k-th `pthread_create` of the round; whether
  -- that call has started a thread is not looked at.
  unfoldable pub grow_slot : ℕ → Growth → Growth
  grow_slot i g =
      let p = g.pool in
      if is_vacant pthread_kill p i
      then record {
        pool = record p {
          threads = set p.threads i (new_tid g.add);
          live_thr_num = p.live_thr_num + 1;
        };
        add = g.add + 1;
      }
      else g

  -- The loop from slot `i` on, with `max_thr_num - i` slots left.
  unfoldable pub grow_from : ℕ → ℕ → Growth → Growth
  unfolding grow_slot grow_goes_on
  grow_from zero i g = g
  grow_from (suc slots) i g = if grow_goes_on g then grow_from slots (i + 1) (grow_slot i g) else g

  -- The first half of a round: nothing unless tasks queue up and the sample allows more threads.
  unfoldable pub adjust_grow : Sample → ThreadPool → Growth
  unfolding grow_from wants_more
  adjust_grow s p =
      let start : Growth = record { pool = p; add = 0 } in
      if wants_more s p then grow_from p.max_thr_num 0 start else start

-- The second half of a round: ten threads are asked to leave, and the condition is signalled ten times.
unfoldable pub adjust_shrink : Sample → ThreadPool → ThreadPool × List Call
adjust_shrink s p =
    if ltb (s.busy_thr_num * 2) s.live_thr_num && ltb p.min_thr_num s.live_thr_num
    then (
      record p { wait_exit_thr_num = default_thread_vary },
      replicate default_thread_vary (signal queue_not_empty),
    )
    else (p, [])
