-- ===== src/ThreadPool/Create/Destroy.antt =====
-- What `threadpool_destroy` waits for and releases.
use linux_api_and_socket_pro.Common.{
  ℕ, zero, suc, ◌+◌, ◌≤◌, ◌<◌, ◌≡◌, refl, ◌≢◌, List, [], ◌∷◌, ◌++◌, map, arith, length, get_or,
  take, drop, replicate,
}
use linux_api_and_socket_pro.ThreadPool.State.{
  ThreadPool, success, failure, queue_not_empty, broadcast, join,
}
use linux_api_and_socket_pro.ThreadPool.Create.{
  threadpool_free, broadcast_loop, join_loop, threadpool_destroy,
}

drop-lookup {ℓ} :
    {A : Type ℓ} (xs : List A) (i : ℕ) (d : A)
    → i < length xs
    → drop i xs ≡ get_or xs i d ∷ drop (suc i) xs
drop-lookup [] i d h = absurd (omega arith)
drop-lookup (x ∷ xs) zero d h = refl
drop-lookup (x ∷ xs) (suc i) d h = drop-lookup xs i d (omega arith)

join_loop-constant :
    (p : ThreadPool) (n i : ℕ)
    → i + n ≡ p.live_thr_num
    → p.live_thr_num ≤ length p.threads
    → join_loop (replicate (suc n) p) i ≡ map join (take n (drop i p.threads))
unfolding join_loop
join_loop-constant p zero i e fits = ground arith
join_loop-constant p (suc n) i e fits =
    ground (arith, drop-lookup p.threads i 0, join_loop-constant p n (i + 1))

broadcast_loop-constant :
    (p : ThreadPool) (n i : ℕ)
    → i + n ≡ p.live_thr_num
    → broadcast_loop (replicate (suc n) p) i ≡ replicate n (broadcast queue_not_empty)
unfolding broadcast_loop
broadcast_loop-constant p zero i e = ground arith
broadcast_loop-constant p (suc n) i e = ground (arith, broadcast_loop-constant p n (i + 1))

-- On NULL `threadpool_destroy` returns -1 and does nothing. On a pool whose live count stays at `n` while
-- it runs, it joins the manager, broadcasts `n` times, joins the threads of the first `n` slots of the table,
-- one after the other, and those alone, and then frees the pool with `threadpool_free`.
pub threadpool_destroy_lem :
    (address n : ℕ) (p gone : ThreadPool)
    → address ≢ 0
    → gone.live_thr_num ≡ n
    → n ≤ length gone.threads
    → (threadpool_destroy 0 p [] [] ≡ (failure, []))
      × (threadpool_destroy address p (replicate (suc n) gone) (replicate (suc n) gone) ≡ (
        success,
        join p.adjust_tid
            ∷ (replicate n (broadcast queue_not_empty)
                ++ (map join (take n gone.threads)
                    ++ (threadpool_free address p.task_queue p.threads_block).1)),
      ))
unfolding threadpool_destroy
threadpool_destroy_lem address n p gone there e fits =
    (refl, ground (arith, broadcast_loop-constant gone n 0, join_loop-constant gone n 0))
