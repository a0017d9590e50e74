-- ===== src/ThreadPool/Adjust/Grow.antt =====
-- The loop of `adjust_thread` that starts threads.
use linux_api_and_socket_pro.Common.{
  ℕ, zero, suc, ◌+◌, ◌≤◌, ◌<◌, ◌≡◌, refl, ◌∙◌, ◌≢◌, inl, inr, true, false, not, ◌||◌, arith,
  ℕ_discrete, ◌==◌, Bool-cases, length, get_or, length-set, get_or-set_self, get_or-set_ne,
}
use linux_api_and_socket_pro.ThreadPool.State.{ThreadPool, default_thread_vary}
use linux_api_and_socket_pro.ThreadPool.Adjust.{
  Sample, is_thread_alive, is_vacant, Growth, wants_more, grow_goes_on, grow_slot, grow_from,
  adjust_grow,
}

-- From `g` to `h` threads were asked for, within the limits, and nothing else of the pool changed.
pub record Grew (g h : Growth) : Type 0 where
  pub live : h.pool.live_thr_num + g.add ≡ g.pool.live_thr_num + h.add
  pub started : g.add ≤ h.add
  pub few : g.add ≤ default_thread_vary → h.add ≤ default_thread_vary
  pub fits : g.pool.live_thr_num ≤ g.pool.max_thr_num → h.pool.live_thr_num ≤ g.pool.max_thr_num
  pub same :
      h.pool ≡ record (g.pool) { threads = h.pool.threads; live_thr_num = h.pool.live_thr_num }

Grew-refl : (g : Growth) → Grew g g
Grew-refl g = ground arith

Grew-trans : {f g h : Growth} → Grew f g → Grew g h → Grew f h
Grew-trans a b = ground arith

module _ (pthread_kill : ℕ → ℕ → ℕ) (new_tid : ℕ → ℕ) where
  grow_slot-Grew :
      (i : ℕ) (g : Growth) → grow_goes_on g ≡ true → Grew g (grow_slot pthread_kill new_tid i g)
  unfolding grow_slot grow_goes_on
  grow_slot-Grew i g h = ground arith

  pub grow_from-Grew :
      (slots i : ℕ) (g : Growth) → Grew g (grow_from pthread_kill new_tid slots i g)
  unfolding grow_from
  grow_from-Grew zero i g = Grew-refl g
  grow_from-Grew (suc slots) i g = elim (Bool-cases (grow_goes_on g)) [
    | inl more ↦ rw more (
        Grew-trans (grow_slot-Grew i g more)
          (grow_from-Grew slots (i + 1) (grow_slot pthread_kill new_tid i g)))
    | inr done ↦ rw done (Grew-refl g)
  ]

  pub adjust_grow-Grew :
      (s : Sample) (p : ThreadPool)
      → Grew (record { pool = p; add = 0 }) (adjust_grow pthread_kill new_tid s p)
  unfolding adjust_grow
  adjust_grow-Grew s p = elim (Bool-cases (wants_more s p)) [
    | inl more ↦ rw more (grow_from-Grew p.max_thr_num 0 (record { pool = p; add = 0 }))
    | inr enough ↦ rw enough (Grew-refl _)
  ]

  -- Whatever the sample, a round calls `pthread_create` at most ten times and counts a live thread for each call,
  -- whatever it returns, takes a pool within `max_thr_num` never beyond it, and changes nothing but the thread table
  -- and the live count.
  pub adjust_grow_bounds :
      (s : Sample) (p : ThreadPool)
      → p.live_thr_num ≤ p.max_thr_num
      → let g = adjust_grow pthread_kill new_tid s p in
        (g.add ≤ default_thread_vary)
        × (g.pool.live_thr_num ≡ p.live_thr_num + g.add)
        × (g.pool.live_thr_num ≤ p.max_thr_num)
        × (g.pool ≡ record p { threads = g.pool.threads; live_thr_num = g.pool.live_thr_num })
  adjust_grow_bounds s p fits = ground (arith, adjust_grow-Grew s p)

  -- The pool's threads that live: their slots are not vacant.
  abbrev IsHeld : ThreadPool → ℕ → Type 0
  IsHeld p j = is_vacant pthread_kill p j ≡ false

  grow_slot-keeps :
      (i j : ℕ) (g : Growth)
      → IsHeld g.pool j
      → get_or (grow_slot pthread_kill new_tid i g).pool.threads j 0 ≡ get_or g.pool.threads j 0
  unfolding grow_slot
  grow_slot-keeps i j g held = elim (ℕ_discrete i j) [
    | yes e ↦ rw (e, held) refl
    | no ne ↦ ground (arith, get_or-set_ne g.pool.threads i j (new_tid g.add) 0 ne)
  ]

  IsHeld-of-eq :
      (p q : ThreadPool) (j : ℕ)
      → get_or q.threads j 0 ≡ get_or p.threads j 0
      → IsHeld p j
      → IsHeld q j
  unfolding is_vacant
  IsHeld-of-eq p q j e held = rw e held

  length-grow_slot :
      (i : ℕ) (g : Growth)
      → length (grow_slot pthread_kill new_tid i g).pool.threads ≡ length g.pool.threads
  unfolding grow_slot
  length-grow_slot i g = ground (arith, length-set g.pool.threads i (new_tid g.add))

  -- Over any slots the loop leaves the entry of a thread that lives as it is.
  pub grow_from-keeps :
      (slots i j : ℕ) (g : Growth)
      → IsHeld g.pool j
      → get_or (grow_from pthread_kill new_tid slots i g).pool.threads j 0
        ≡ get_or g.pool.threads j 0
  unfolding grow_from
  grow_from-keeps zero i j g held = refl
  grow_from-keeps (suc slots) i j g held = elim (Bool-cases (grow_goes_on g)) [
    | inl more ↦ rw more (
        grow_from-keeps slots (i + 1) j (grow_slot pthread_kill new_tid i g)
          (IsHeld-of-eq g.pool _ j (grow_slot-keeps i j g held) held)
        ∙ grow_slot-keeps i j g held)
    | inr done ↦ rw done refl
  ]

  module _
      (alive : (k : ℕ) → (new_tid k ≢ 0) × (is_thread_alive pthread_kill (new_tid k) ≡ true)) where
    grow_slot-IsHeld :
        (i : ℕ) (g : Growth)
        → i < length g.pool.threads
        → IsHeld (grow_slot pthread_kill new_tid i g).pool i
    unfolding grow_slot is_vacant
    grow_slot-IsHeld i g h = elim (Bool-cases (is_vacant pthread_kill g.pool i)) [
      | inl vacant ↦ rw vacant (taken_over (get_or-set_self g.pool.threads i (new_tid g.add) 0 h))
      | inr held ↦ rw held held
    ]
      where
        taken_over :
            {v : ℕ} → v ≡ new_tid g.add → ((v == 0) || not (is_thread_alive pthread_kill v)) ≡ false
        taken_over e = rw (e, (alive g.add).1) (ground (arith, (alive g.add).0))

    -- If the threads that it starts live, the loop stops early only at one of its limits: where it
    -- could go on at the end, every slot that it was to visit holds a thread that lives.
    pub grow_from-fills :
        (slots i j : ℕ) (g : Growth)
        → i + slots ≤ length g.pool.threads
        → i ≤ j
        → j < i + slots
        → grow_goes_on (grow_from pthread_kill new_tid slots i g) ≡ true
        → IsHeld (grow_from pthread_kill new_tid slots i g).pool j
    unfolding grow_from
    grow_from-fills zero i j g fits lo hi more = absurd (omega arith)
    grow_from-fills (suc slots) i j g fits lo hi more = elim (Bool-cases (grow_goes_on g)) [
      | inl on ↦ rw on (elim (ℕ_discrete i j) [
        | yes e ↦
            IsHeld-of-eq (grow_slot pthread_kill new_tid i g).pool _ j
              (grow_from-keeps slots (i + 1) j (grow_slot pthread_kill new_tid i g) (first e))
              (first e)
        | no ne ↦
            grow_from-fills slots (i + 1) j (grow_slot pthread_kill new_tid i g)
              (omega (arith, length-grow_slot i g)) (omega arith) (omega arith) (rw on at more)
      ])
      | inr done ↦ cc
    ]
      where
        first : i ≡ j → IsHeld (grow_slot pthread_kill new_tid i g).pool j
        first e = rw (← e) (grow_slot-IsHeld i g (omega arith))

    -- Where the sample asks for more threads and the thread table has `max_thr_num` slots, the round stops
    -- only at ten new threads, at `max_thr_num` live ones, or when every slot holds a thread that lives.
    pub adjust_grow-fills :
        (s : Sample) (p : ThreadPool)
        → wants_more s p ≡ true
        → length p.threads ≡ p.max_thr_num
        → grow_goes_on (adjust_grow pthread_kill new_tid s p) ≡ true
        → (j : ℕ) → j < p.max_thr_num
        → IsHeld (adjust_grow pthread_kill new_tid s p).pool j
    unfolding adjust_grow
    adjust_grow-fills s p wants len on j lt = rw wants (
        grow_from-fills p.max_thr_num 0 j (record { pool = p; add = 0 }) (omega arith) (omega arith)
          (omega arith) (rw wants at on))
