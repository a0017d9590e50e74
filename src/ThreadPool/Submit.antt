-- ===== src/ThreadPool/Submit.antt =====
-- `threadpool_add` as a whole: the wait for room, the slot that it writes, and a call after a shutdown.
use linux_api_and_socket_pro.Common.{
  ℕ, ◌+◌, ◌≡◌, refl, sym, ap, ◌∙◌, ◌≢◌, true, false, none, some, List, [], ◌∷◌, ◌++◌, append-nil,
  arith, ◌==◌, if◌then◌else◌, get_or, All, get_or-set_self,
}
use native.Mathlib.Nat.{add-mod_right, mod-eq_of_lt}
use linux_api_and_socket_pro.ThreadPool.State.{
  ThreadPool, null_task, success, pool_lock, queue_not_empty, Call, free, unlock, signal,
}
use linux_api_and_socket_pro.ThreadPool.Queue.{add_waits, add_task, threadpool_add}
use linux_api_and_socket_pro.ThreadPool.Queue.Inv.{IsValid, contents}
use linux_api_and_socket_pro.ThreadPool.Queue.Refine.{add_task-IsValid, contents-add_task}

-- The calls of an undisturbed `threadpool_add`: the argument left in the slot is freed if there is one.
abbrev pub add_calls : ThreadPool → List Call
add_calls p =
    let old = get_or p.tasks p.queue_rear null_task in
    (if old.arg == 0 then [] else free old.arg ∷ [])
    ++ (signal queue_not_empty ∷ unlock pool_lock ∷ [])

threadpool_add-append :
    (blocked rest : List ThreadPool) (f a : ℕ)
    → All (λ q. add_waits q ≡ true) blocked
    → threadpool_add (blocked ++ rest) f a ≡ threadpool_add rest f a
unfolding threadpool_add
threadpool_add-append [] rest f a full = refl
threadpool_add-append (p ∷ blocked) rest f a full =
    ground (arith, full.0, threadpool_add-append blocked rest f a full.1)

-- A caller that finds the queue full at each of the first looks stays blocked; at the first look at which a
-- sound pool that is not shut down has room it returns 0, the queue holds one more task, at its end, and
-- stays sound, and the lock is released once, after one signal.
pub threadpool_add_lem :
    (blocked views : List ThreadPool) (p : ThreadPool) (f a : ℕ)
    → All (λ q. add_waits q ≡ true) blocked
    → IsValid p
    → p.queue_size ≢ p.queue_max_size
    → p.shutdown ≡ false
    → (threadpool_add blocked f a ≡ none)
      × ((q : ThreadPool) × (threadpool_add (blocked ++ (p ∷ views)) f a
            ≡ some (success, (q, add_calls p)))
          × IsValid q
          × (contents q ≡ contents p ++ (record { function = f; arg = a } ∷ [])))
unfolding threadpool_add
threadpool_add_lem blocked views p f a full v room up = (
  ap (λ b. threadpool_add b f a) (sym (append-nil blocked))
      ∙ threadpool_add-append blocked [] f a full,
  (
    (add_task p f a).0,
    rw (threadpool_add-append blocked (p ∷ views) f a full) (ground arith),
    add_task-IsValid p f a v (omega arith),
    contents-add_task p f a v (omega arith),
  ),
)

-- After a shutdown `threadpool_add` still goes through on a full queue: it returns 0, `queue_size` passes
-- `queue_max_size`, the oldest task is overwritten, and the lock is released at the start and again at
-- the end.
pub add_after_shutdown :
    (views : List ThreadPool) (p : ThreadPool) (f a : ℕ)
    → IsValid p
    → p.queue_size ≡ p.queue_max_size
    → p.shutdown ≡ true
    → (q : ThreadPool) × (threadpool_add (p ∷ views) f a
        ≡ some (success, (q, unlock pool_lock ∷ add_calls p)))
      × (q.queue_size ≡ q.queue_max_size + 1)
      × (get_or q.tasks q.queue_front null_task ≡ record { function = f; arg = a })
unfolding threadpool_add
add_after_shutdown views p f a v full down = (
  (add_task p f a).0,
  ground arith,
  ground arith,
  rw rear-eq-front (get_or-set_self p.tasks p.queue_front _ null_task (omega arith)),
)
  where
    rear-eq-front : p.queue_rear ≡ p.queue_front
    rear-eq-front = v.rear_at ∙ (rw (full, add-mod_right, mod-eq_of_lt v.front_in))
