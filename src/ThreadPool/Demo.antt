-- ===== src/ThreadPool/Demo.antt =====
-- thread_pool/threadpool.c: main, up to its pause, without the turns of the workers in between, which ThreadPool.System
-- has.
use linux_api_and_socket_pro.Common.{
  ℕ, zero, suc, ◌+◌, ◌*◌, ◌≤◌, ◌<◌, ◌≡◌, refl, sym, ap, ◌∙◌, Option, none, some, List, [], ◌∷◌,
  ◌++◌, append-nil, append_assoc, arith, ne_test, length,
}
use native.Mathlib.Nat.{mod-eq_of_lt}
use linux_api_and_socket_pro.ThreadPool.Create.Failure.{AllGranted, create_succeeds}
use linux_api_and_socket_pro.ThreadPool.State.{Task, ThreadPool, success}
use linux_api_and_socket_pro.ThreadPool.Create.{Answers, created, threadpool_create}
use linux_api_and_socket_pro.ThreadPool.Queue.{add_waits, add_task, threadpool_add}
use linux_api_and_socket_pro.ThreadPool.Queue.Inv.{IsValid, contents}
use linux_api_and_socket_pro.ThreadPool.Queue.Refine.{add_task-IsValid, contents-add_task}

-- The loop from `i` on: the address of `num[i]` is the argument. `none` is a call that stays blocked.
unfoldable pub demo_adds : (process num rounds i : ℕ) → ThreadPool → Option ThreadPool
unfolding threadpool_add
demo_adds process num zero i p = some p
demo_adds process num (suc rounds) i p = elim (threadpool_add (p ∷ []) process (num + 4 * i)) [
  | none ↦ none
  | some (status, (q, calls)) ↦ demo_adds process num rounds (i + 1) q
]

-- `main` with the addresses of `process` and of `num`; it does not look for the NULL of a failed `threadpool_create`.
unfoldable pub demo_main : Answers → (process num : ℕ) → Option ThreadPool
unfolding threadpool_create demo_adds
demo_main a process num = elim ((threadpool_create a 3 100 100).0) [
  | none ↦ none
  | some p ↦ demo_adds process num 20 0 p
]

-- the tasks from `i` on
unfoldable pub demo_tasks : (process num rounds i : ℕ) → List Task
demo_tasks process num zero i = []
demo_tasks process num (suc rounds) i =
    record { function = process; arg = num + 4 * i } ∷ demo_tasks process num rounds (i + 1)

threadpool_add-one :
    (p : ThreadPool) (f a : ℕ)
    → p.queue_size < p.queue_max_size
    → threadpool_add (p ∷ []) f a ≡ some (success, add_task p f a)
unfolding threadpool_add add_waits
threadpool_add-one p f a h =
    rw (ne_test p.queue_size p.queue_max_size (λ e. absurd (omega (arith, h, e)))) refl

-- what a submission leaves alone
add_task_rest :
    (p : ThreadPool) (f a : ℕ)
    → ((add_task p f a).0.queue_size ≡ p.queue_size + 1)
      × ((add_task p f a).0.queue_max_size ≡ p.queue_max_size)
unfolding add_task
add_task_rest p f a = (refl, refl)

demo_adds_lem :
    (process num rounds i : ℕ) (p : ThreadPool)
    → IsValid p
    → p.queue_size + rounds ≤ p.queue_max_size
    → (q : ThreadPool) × (demo_adds process num rounds i p ≡ some q)
      × IsValid q
      × (contents q ≡ contents p ++ demo_tasks process num rounds i)
unfolding demo_adds demo_tasks
demo_adds_lem process num zero i p v fits = (p, refl, v, sym (append-nil (contents p)))
demo_adds_lem process num (suc rounds) i p v fits =
    let t = (add_task p process (num + 4 * i)).0 in
    let (q, e, v', same) =
      demo_adds_lem process num rounds (i + 1) t
        (add_task-IsValid p process (num + 4 * i) v (omega arith))
        (omega (
          arith,
          fits,
          (add_task_rest p process (num + 4 * i)).0,
          (add_task_rest p process (num + 4 * i)).1,
        )) in
    (
      q,
      rw (threadpool_add-one p process (num + 4 * i) (omega (arith, fits)), demo_adds) e,
      v',
      same
          ∙ ap (λ l. l ++ demo_tasks process num rounds (i + 1))
              (contents-add_task p process (num + 4 * i) v (omega arith))
          ∙ append_assoc (contents p) (record { function = process; arg = num + 4 * i } ∷ [])
              (demo_tasks process num rounds (i + 1)),
    )

created-IsValid :
    (a : Answers) (lo hi slots : ℕ)
    → length a.old_tasks ≡ slots
    → 0 < slots
    → IsValid (created a lo hi slots)
unfolding created
created-IsValid a lo hi slots len pos = record {
  storage = len;
  room = pos;
  front_in = pos;
  size_in = omega arith;
  rear_at = sym (mod-eq_of_lt pos);
}

-- When all that `threadpool_create` asks for is granted, `main` is not blocked in its submissions, even if no worker
-- takes a task, and the queue of its sound pool then holds the 20 tasks in order.
pub demo_main_lem :
    (a : Answers) (process num : ℕ)
    → AllGranted a
    → length a.old_tasks ≡ 100
    → (q : ThreadPool) × (demo_main a process num ≡ some q)
      × IsValid q
      × (contents q ≡ demo_tasks process num 20 0)
unfolding demo_main created
demo_main_lem a process num granted len =
    let (q, e, v, same) =
      demo_adds_lem process num 20 0 (created a 3 100 100)
        (created-IsValid a 3 100 100 len (omega arith)) (omega arith) in
    (q, rw ((create_succeeds a 3 100 100).1 granted, demo_main) e, v, same)
