-- ===== src/Threads/Cond/Safety.antt =====
-- The mutex excludes, and every value is consumed at most once and never lost.
use linux_api_and_socket_pro.Common.{
  ℕ, ◌+◌, ◌≡◌, refl, ap, true, false, arith, if◌then◌else◌, total,
}
use linux_api_and_socket_pro.Threads.Cond.{
  unlocked, testing, waiting, draining, Store, start, Step, make, lock, join, link, unlock, enter,
  sleep, wake, begin, show, take_one, leave, Reach, here, next,
}
use linux_api_and_socket_pro.Threads.Cond.Count.{count}
use linux_api_and_socket_pro.Threads.Cond.Inv.{
  has_printed, producer_holds, in_hand, half_taken, inside, made, IsSound,
}
use linux_api_and_socket_pro.Threads.Cond.Moves.{
  start-IsSound, fill-IsSound, at-IsSound, locked_by, print-IsSound, pop-IsSound, link-IsSound,
}

Step-IsSound : {s t : Store} → Step s t → IsSound s → IsSound t
Step-IsSound {s} (make at_p _) h = fill-IsSound s at_p h
Step-IsSound {s} (lock val at_p free) h = record {
  exclusive = ground (arith, h.exclusive);
  conserved = λ v. omega (arith, h.conserved v, ap (in_hand v) at_p);
  fresh = tt;
  started = h.started;
}
Step-IsSound {s} (join val at_p) h = record {
  exclusive = omega (arith, h.exclusive, ap producer_holds at_p);
  conserved = λ v. omega (arith, h.conserved v, ap (in_hand v) at_p);
  fresh = refl;
  started = h.started;
}
Step-IsSound {s} (link val rest at_p) h = link-IsSound s val rest at_p h
Step-IsSound {s} (unlock at_p) h = record {
  exclusive = ground (arith, h.exclusive);
  conserved = λ v. omega (arith, h.conserved v, ap (in_hand v) at_p);
  fresh = tt;
  started = h.started;
}
Step-IsSound {s} (enter i e free) h =
    at-IsSound s i unlocked testing true e (λ q. cc) refl refl (ground (arith, free)) h
Step-IsSound {s} (sleep i e empty) h =
    at-IsSound s i testing waiting false e (λ q. cc) refl refl
      (ground (arith, locked_by s i testing e (λ q. cc) refl h)) h
Step-IsSound {s} (wake i e free) h =
    at-IsSound s i waiting testing true e (λ q. cc) refl refl (ground (arith, free)) h
Step-IsSound {s} (begin i e full) h =
    at-IsSound s i testing draining s.mutex e (λ q. cc) refl refl refl h
Step-IsSound {s} (show i val rest e cons) h = print-IsSound s i val rest e cons h
Step-IsSound {s} (take_one i e) h = pop-IsSound s i e h
Step-IsSound {s} (leave i e empty) h =
    at-IsSound s i draining unlocked false e (λ q. cc) refl refl
      (ground (arith, locked_by s i draining e (λ q. cc) refl h)) h

pub Reach-IsSound : (n : ℕ) {s : Store} → Reach (start n) s → IsSound s
Reach-IsSound n here = start-IsSound n
Reach-IsSound n (next way step) = Step-IsSound step (Reach-IsSound n way)

-- Whatever the order of the threads' moves, at most one of them is in the critical section, which is one exactly
-- while the mutex is locked.
pub one_inside : (n : ℕ) {s : Store} → Reach (start n) s → inside s ≡ (if s.mutex then 1 else 0)
one_inside n way = (Reach-IsSound n way).exclusive

-- Whatever the order of the threads' moves, every number from 100 to the last one made is once among the printed
-- values, in the list or in the producer's hands, and no other value is: none is lost and none is printed twice. While
-- a consumer is between its `printf` and the step to the next node, the head is in both and is counted once.
pub consumed_once :
    (n v : ℕ) {s : Store}
    → Reach (start n) s
    → count v s.log + count v s.head + in_hand v s.producer
      ≡ made s.beginnum v + half_taken v (total has_printed s.consumers) s.head
consumed_once n v way = (Reach-IsSound n way).conserved v
