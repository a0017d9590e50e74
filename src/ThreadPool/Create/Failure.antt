-- ===== src/ThreadPool/Create/Failure.antt =====
-- When `threadpool_create` returns NULL, and what it has released by then.
use linux_api_and_socket_pro.Common.{
  ℕ, ◌≡◌, ◌≢◌, ◌↔◌, none, some, List, [], ◌∷◌, ◌++◌, arith, ◌==◌, if◌then◌else◌,
}
use linux_api_and_socket_pro.ThreadPool.State.{Call, free}
use linux_api_and_socket_pro.ThreadPool.Create.{Answers, created, threadpool_create}

-- All that `threadpool_create` asks for is granted.
abbrev pub AllGranted : Answers → Type 0
AllGranted a =
    (a.pool ≢ 0)
    × (a.threads ≢ 0)
    × (a.task_queue ≢ 0)
    × (a.lock_init ≡ 0)
    × (a.thread_counter_init ≡ 0)
    × (a.queue_not_empty_init ≡ 0)
    × (a.queue_not_full_init ≡ 0)

-- `threadpool_create` returns a pool exactly when the three allocations and the four initialisations
-- succeed; it then frees nothing, and the pool is the one that `created` describes.
pub create_succeeds :
    (a : Answers) (lo hi size : ℕ)
    → (threadpool_create a lo hi size ≡ (some (created a lo hi size), [])) ↔ AllGranted a
unfolding threadpool_create
create_succeeds a lo hi size = ((λ made. ground arith), λ granted. ground arith)

-- the addresses that a list of calls frees, in order
abbrev pub freed : List Call → List ℕ
freed [] = []
freed (free address ∷ calls) = address ∷ freed calls
freed (_ ∷ calls) = freed calls

-- If an initialisation or the allocation of the task array fails, the blocks allocated by then are freed,
-- each once, the pool last. If that of the thread array fails, the code also frees whatever address the
-- memory of the new pool held in the field `task_queue`, unless that was 0.
pub create_fails :
    (a : Answers) (lo hi size : ℕ)
    → (threadpool_create a lo hi size).0 ≡ none
    → freed (threadpool_create a lo hi size).1 ≡ (
        if a.pool == 0
        then []
        else if a.threads == 0
        then (if a.old_task_queue == 0 then [] else a.old_task_queue ∷ []) ++ (a.pool ∷ [])
        else if a.task_queue == 0
        then a.threads ∷ a.pool ∷ []
        else a.task_queue ∷ a.threads ∷ a.pool ∷ [])
unfolding threadpool_create
create_fails a lo hi size failed = ground arith
