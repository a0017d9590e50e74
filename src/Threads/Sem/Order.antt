-- ===== src/Threads/Sem/Order.antt =====
-- The consumer gets the numbers in order, whatever the threads' timing.
use linux_api_and_socket_pro.Common.{
  ℕ, zero, suc, ◌+◌, ◌%◌, ◌≤◌, ◌<◌, ◌≡◌, refl, ap, ap₂, subst, ◌∙◌, List, [], ◌∷◌, ◌++◌, arith,
  dec_lt, ℕ_discrete, length, get_or, set, length-set, get_or-set_self, get_or-set_ne,
}
use linux_api_and_socket_pro.Threads.Sem.{
  Producer, outside, allowed, stored, Consumer, idle, granted, printed, Ring, slots, int_max, start,
  produce, consume, Step, wait_empty, make, post_full, wait_full, get, post_empty, Reach, here,
  next,
}

-- slots that the producer has taken and not yet offered
abbrev pub to_fill : Producer → ℕ
to_fill outside = 0
to_fill allowed = 1
to_fill stored = 0

abbrev pub to_offer : Producer → ℕ
to_offer stored = 1
to_offer _ = 0

abbrev pub to_print : Consumer → ℕ
to_print granted = 1
to_print _ = 0

abbrev pub to_free : Consumer → ℕ
to_free printed = 1
to_free _ = 0

-- the numbers from 100 on
abbrev pub numbers : ℕ → List ℕ
numbers zero = []
numbers (suc n) = numbers n ++ ((100 + n) ∷ [])

-- Every slot is free, full or in some thread's hands; the numbers between the two counters are in their slots.
pub record IsSound (r : Ring) : Type 0 where
  pub size : length r.value ≡ slots
  pub next_number : r.beginnum ≡ 100 + r.made
  pub slots_used :
      r.s_empty
        + r.s_full
        + to_fill r.producer
        + to_offer r.producer
        + to_print r.consumer
        + to_free r.consumer
      ≡ slots
  pub between : r.made ≡ r.taken + r.s_full + to_offer r.producer + to_print r.consumer
  pub held : (k : ℕ) → r.taken ≤ k → k < r.made → get_or r.value (k % slots) 0 ≡ 100 + k
  pub printed_so_far : r.log ≡ numbers r.taken

start-IsSound : IsSound start
unfolding start
start-IsSound = record {
  size = refl;
  next_number = refl;
  slots_used = refl;
  between = refl;
  held = λ k low high. absurd (omega arith);
  printed_so_far = refl;
}

produce-IsSound : (r : Ring) → r.producer ≡ allowed → IsSound r → IsSound (produce r)
unfolding produce
produce-IsSound r at_p h = record {
  size = length-set r.value (r.made % slots) r.beginnum ∙ h.size;
  next_number = omega (arith, h.next_number);
  slots_used = ground (arith, h.slots_used);
  between = ground (arith, h.between);
  held = stays;
  printed_so_far = h.printed_so_far;
}
  where
    used : r.s_empty + r.s_full + 1 + 0 + to_print r.consumer + to_free r.consumer ≡ slots
    used =
        subst
          (λ p.
            r.s_empty + r.s_full + to_fill p + to_offer p + to_print r.consumer + to_free r.consumer
            ≡ slots)
          at_p h.slots_used

    apart : r.made ≡ r.taken + r.s_full + 0 + to_print r.consumer
    apart =
        subst (λ p. r.made ≡ r.taken + r.s_full + to_offer p + to_print r.consumer) at_p h.between

    stays :
        (k : ℕ)
        → r.taken ≤ k
        → k < r.made + 1
        → get_or (set r.value (r.made % slots) r.beginnum) (k % slots) 0 ≡ 100 + k
    stays k low high = elim (ℕ_discrete k r.made) [
      | yes e ↦
          ap (λ j. get_or (set r.value (r.made % slots) r.beginnum) (j % slots) 0) e
          ∙ get_or-set_self r.value (r.made % slots) r.beginnum 0 (omega (arith, h.size))
          ∙ omega (arith, h.next_number)
      | no ne ↦
          get_or-set_ne r.value (r.made % slots) (k % slots) r.beginnum 0
            (λ e. absurd (omega (arith, used, apart)))
          ∙ h.held k low (omega arith)
    ]

consume-IsSound : (r : Ring) → r.consumer ≡ granted → IsSound r → IsSound (consume r)
unfolding consume
consume-IsSound r at_c h = record {
  size = h.size;
  next_number = h.next_number;
  slots_used = ground (arith, h.slots_used);
  between = ground (arith, h.between);
  held = λ k low high. h.held k (omega arith) high;
  printed_so_far =
      ap₂ (λ l v. l ++ (v ∷ [])) h.printed_so_far
        (h.held r.taken (omega arith) (omega (arith, apart)));
}
  where
    apart : r.made ≡ r.taken + r.s_full + to_offer r.producer + 1
    apart =
        subst (λ c. r.made ≡ r.taken + r.s_full + to_offer r.producer + to_print c) at_c h.between

Step-IsSound : {r s : Ring} → Step r s → IsSound r → IsSound s
Step-IsSound {r} (wait_empty at free) h = ground (arith, h)
Step-IsSound {r} (make at _) h = produce-IsSound r at h
Step-IsSound {r} (post_full at) h = ground (arith, h)
Step-IsSound {r} (wait_full at full) h = ground (arith, h)
Step-IsSound {r} (get at) h = consume-IsSound r at h
Step-IsSound {r} (post_empty at) h = ground (arith, h)

pub Reach-IsSound : {r : Ring} → Reach start r → IsSound r
Reach-IsSound here = start-IsSound
Reach-IsSound (next way step) = Step-IsSound step (Reach-IsSound way)

-- Whatever the order of the threads' moves, the consumer has printed 100, 101, 102 and so on, each once, and the
-- numbers that were made and not yet printed are at most six.
pub numbers_in_order :
    {r : Ring}
    → Reach start r
    → (r.log ≡ numbers r.taken) × (r.taken ≤ r.made) × (r.made ≤ r.taken + slots)
numbers_in_order {r} way =
    let h = Reach-IsSound way in
    (h.printed_so_far, omega (arith, h.between), omega (arith, h.between, h.slots_used))

-- No deadlock: while the next number is an `int`, some thread can move.
pub always_moves : {r : Ring} → Reach start r → r.beginnum < int_max → (s : Ring) × Step r s
always_moves {r} way small = moves r.producer r.consumer refl refl (Reach-IsSound way)
  where
    moves :
        (p : Producer) (c : Consumer)
        → r.producer ≡ p
        → r.consumer ≡ c
        → IsSound r
        → (s : Ring) × Step r s
    moves allowed c at_p at_c h = (_, make at_p small)
    moves stored c at_p at_c h = (_, post_full at_p)
    moves outside granted at_p at_c h = (_, get at_c)
    moves outside printed at_p at_c h = (_, post_empty at_c)
    moves outside idle at_p at_c h = elim (dec_lt 0 r.s_empty) [
      | yes free ↦ (_, wait_empty at_p free)
      | no full ↦ (_, wait_full at_c (ground (arith, full, h.slots_used)))
    ]
