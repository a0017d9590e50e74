-- ===== src/ThreadPool/Queue/Inv.antt =====
-- The representation invariant of the task queue, and the tasks that it holds, in order.
use linux_api_and_socket_pro.Common.{
  ℕ, zero, suc, ◌+◌, ◌-◌, ◌%◌, ◌≤◌, ◌<◌, ◌≡◌, refl, ◌≢◌, ap, ap₂, ◌∙◌, List, [], ◌∷◌, ◌++◌, arith,
  dec_lt, length, get_or, set, get_or-set_self, get_or-set_ne,
}
use native.Mathlib.Nat.{mod-add-mod, mod-eq_of_lt, mod-eq-sub-mod, add-zero}
use linux_api_and_socket_pro.ThreadPool.State.{Task, ThreadPool, null_task}

pub record IsValid (p : ThreadPool) : Type 0 where
  pub storage : length p.tasks ≡ p.queue_max_size
  pub room : 0 < p.queue_max_size
  pub front_in : p.queue_front < p.queue_max_size
  pub size_in : p.queue_size ≤ p.queue_max_size
  pub rear_at : p.queue_rear ≡ (p.queue_front + p.queue_size) % p.queue_max_size

-- the `n` tasks from index `h` on, going round at `slots`
abbrev pub window : List Task → ℕ → ℕ → ℕ → List Task
window tasks slots h zero = []
window tasks slots h (suc n) = get_or tasks h null_task ∷ window tasks slots ((h + 1) % slots) n

abbrev pub contents : ThreadPool → List Task
contents p = window p.tasks p.queue_max_size p.queue_front p.queue_size

pub length-window : (tasks : List Task) (slots h n : ℕ) → length (window tasks slots h n) ≡ n
length-window tasks slots h zero = refl
length-window tasks slots h (suc n) = ap suc (length-window tasks slots ((h + 1) % slots) n)

pub window_of_pos :
    (tasks : List Task) (slots h n : ℕ)
    → n ≢ 0
    → window tasks slots h n
      ≡ get_or tasks h null_task ∷ window tasks slots ((h + 1) % slots) (n - 1)
window_of_pos tasks slots h zero p = absurd (p refl)
window_of_pos tasks slots h (suc n) p = ap (λ k. window tasks slots h (suc k)) (omega arith)

-- Fewer than `slots` steps round the queue do not come back to the start.
add-mod-ne : {slots h k : ℕ} → h < slots → suc k < slots → (h + suc k) % slots ≢ h
add-mod-ne {slots} {h} {k} hh hk = elim (dec_lt (h + suc k) slots) [
  | yes p ↦ omega (arith, mod-eq_of_lt p)
  | no p ↦ omega (
    arith,
    mod-eq-sub-mod {n = h + suc k} {m = slots} (omega arith),
    mod-eq_of_lt {n = h + suc k - slots} {m = slots} (omega arith),
  )
]

-- A step of the write index, and of the read index, as the invariant wants it.
pub next_rear :
    (front size slots : ℕ) → ((front + size) % slots + 1) % slots ≡ (front + (size + 1)) % slots
next_rear front size slots = rw mod-add-mod (ap (λ k. k % slots) (omega arith))

pub next_front :
    (front size slots : ℕ)
    → size ≢ 0
    → (front + size) % slots ≡ ((front + 1) % slots + (size - 1)) % slots
next_front front size slots h = rw mod-add-mod (ap (λ k. k % slots) (omega arith))

-- A write just past a window adds that task at its end.
pub window-set :
    (tasks : List Task) (slots : ℕ) (t : Task) (n h i : ℕ)
    → length tasks ≡ slots
    → h < slots
    → n < slots
    → i ≡ (h + n) % slots
    → window (set tasks i t) slots h (n + 1) ≡ window tasks slots h n ++ (t ∷ [])
window-set tasks slots t n h i hs hh hn e =
    ap (window (set tasks i t) slots h) {y = suc n} (omega arith) ∙ go n h hh hn e
  where
    go :
        (n h : ℕ)
        → h < slots
        → n < slots
        → i ≡ (h + n) % slots
        → window (set tasks i t) slots h (suc n) ≡ window tasks slots h n ++ (t ∷ [])
    go zero h hh hn e =
        rw (e, add-zero, mod-eq_of_lt hh, get_or-set_self tasks h t null_task (omega arith))
    go (suc n) h hh hn e =
        ap₂ ◌∷◌ (get_or-set_ne tasks i h t null_task (rw e (add-mod-ne hh hn)))
          (go n ((h + 1) % slots) (omega arith) (omega arith) (e ∙ shift))
      where
        shift : (h + suc n) % slots ≡ ((h + 1) % slots + n) % slots
        shift = rw mod-add-mod (ap (λ k. k % slots) (omega arith))
