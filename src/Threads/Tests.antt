-- ===== src/Threads/Tests.antt =====
-- Runs of the threads, and the theorems at them.
use linux_api_and_socket_pro.Common.{◌+◌, ◌≤◌, ◌≡◌, refl, true, [], ◌∷◌, arith, total}
use linux_api_and_socket_pro.Threads.Sem.{
  Reach as SemReach, here as sem_here, next as sem_next, start as sem_start, produce, consume,
  wait_empty, make as sem_make, post_full, wait_full, get, granted, outside as sem_outside, slots,
  Ring, Step as SemStep, Producer as SemProducer,
}
use linux_api_and_socket_pro.Threads.Sem.Order.{numbers_in_order, always_moves}
use linux_api_and_socket_pro.Threads.Cond.{
  outside, unlocked, testing, printed, Store, start, fill, print, make, lock, join, link, unlock,
  enter, sleep, wake, begin, show, Reach, here, next,
}
use linux_api_and_socket_pro.Threads.Cond.Count.{count}
use linux_api_and_socket_pro.Threads.Cond.Inv.{inside}
use linux_api_and_socket_pro.Threads.Cond.Safety.{one_inside, consumed_once}

-- one number is made and printed
abbrev offered : Ring
unfolding sem_start produce
offered = record (produce (record sem_start { s_empty = 5; producer = SemProducer.allowed })) {
  s_full = 1;
  producer = sem_outside;
}

abbrev printed_one : Ring
unfolding consume
printed_one = consume (record offered { s_full = 0; consumer = granted })

printed_one-SemReach : SemReach sem_start printed_one
unfolding sem_start produce consume
printed_one-SemReach =
    sem_next
      (sem_next
        (sem_next
          (sem_next (sem_next sem_here (wait_empty refl (omega arith)))
            (sem_make refl (omega arith)))
          (post_full refl))
        (wait_full refl (omega arith)))
      (get refl)

numbers_in_order_example : (printed_one.log ≡ 100 ∷ []) × (1 ≤ 1) × (1 ≤ 1 + slots)
unfolding sem_start produce consume
numbers_in_order_example = numbers_in_order printed_one-SemReach

always_moves_example : (s : Ring) × SemStep printed_one s
unfolding sem_start produce consume
always_moves_example = always_moves printed_one-SemReach (omega arith)

-- Of two consumers one finds the list empty and waits; then a value is linked, and it wakes up.
abbrev woken : Store
woken = record {
  head = 100 ∷ [];
  beginnum = 101;
  mutex = true;
  producer = outside;
  consumers = testing ∷ unlocked ∷ [];
  log = [];
}

woken-Reach : Reach (start 2) woken
unfolding start fill
woken-Reach =
    next
      (next
        (next
          (next
            (next
              (next (next (next here (enter 0 refl refl)) (sleep 0 refl refl))
                (make refl (omega arith)))
              (lock 100 refl refl))
            (join 100 refl))
          (link 100 [] refl))
        (unlock refl))
      (wake 0 refl refl)

one_inside_example : inside woken ≡ 1
one_inside_example = one_inside 2 woken-Reach

-- The head is printed and not yet unlinked.
abbrev half_way : Store
half_way = record woken { consumers = printed ∷ unlocked ∷ []; log = 100 ∷ [] }

half_way-Reach : Reach (start 2) half_way
unfolding print
half_way-Reach = next (next woken-Reach (begin 0 refl (λ e. cc))) (show 0 100 [] refl refl)

consumed_once_example : count 100 half_way.log + count 100 half_way.head + 0 ≡ 1 + 1
unfolding count total
consumed_once_example = consumed_once 2 100 half_way-Reach
