-- ===== src/Threads/Cond/Moves.antt =====
-- The moves keep what holds of the list and the mutex.
use linux_api_and_socket_pro.Common.{
  ℕ, ◌+◌, ◌≤◌, ◌≡◌, refl, ap, subst, ◌≢◌, Bool, true, false, List, [], ◌∷◌, arith, if◌then◌else◌,
  get_or, set, take, drop, replicate, total, total-replicate, total-set, total-ge,
}
use linux_api_and_socket_pro.Threads.Cond.{
  Producer, outside, linked, filled, locked, joined, Consumer, unlocked, draining, printed, absent,
  Store, start, fill, at, print, pop,
}
use linux_api_and_socket_pro.Threads.Cond.Count.{count, count-append, count-cons}
use linux_api_and_socket_pro.Threads.Cond.Inv.{
  works, has_printed, producer_holds, in_hand, IsFresh, half_taken, made, IsSound,
}

pub start-IsSound : (n : ℕ) → IsSound (start n)
unfolding start count
start-IsSound n = record {
  exclusive =
      grind (arith, total-replicate works n unlocked, total-replicate has_printed n unlocked);
  conserved = λ v. rw (none_printed n) (ground arith);
  fresh = tt;
  started = omega arith;
}
  where
    none_printed : (n : ℕ) → total has_printed (replicate n unlocked) ≡ 0
    none_printed n = omega (arith, total-replicate has_printed n unlocked)

pub fill-IsSound : (s : Store) → s.producer ≡ outside → IsSound s → IsSound (fill s)
unfolding fill
fill-IsSound s at_p h = record {
  exclusive = ground (arith, h.exclusive);
  conserved = λ v. ground (arith, h.conserved v, h.started);
  fresh = tt;
  started = omega (arith, h.started);
}

-- A consumer goes from one place to another, and takes or gives the mutex as it goes.
pub at-IsSound :
    (s : Store) (i : ℕ) (c d : Consumer) (mutex : Bool)
    → get_or s.consumers i absent ≡ c
    → c ≢ absent
    → has_printed c ≡ 0
    → has_printed d ≡ 0
    → (if mutex then 1 else 0) + works c ≡ (if s.mutex then 1 else 0) + works d
    → IsSound s
    → IsSound (at s i d mutex)
at-IsSound s i c d mutex e ne pc pd moved h = record {
  exclusive =
      omega
        (arith, total-set works s.consumers i d absent (rw e ne), ap works e, same, h.exclusive);
  conserved = λ v. rw same (h.conserved v);
  fresh = h.fresh;
  started = h.started;
}
  where
    same : total has_printed (set s.consumers i d) ≡ total has_printed s.consumers
    same = omega (arith, total-set has_printed s.consumers i d absent (rw e ne), ap has_printed e)

-- A consumer in the critical section has the mutex.
pub locked_by :
    (s : Store) (i : ℕ) (c : Consumer)
    → get_or s.consumers i absent ≡ c
    → c ≢ absent
    → works c ≡ 1
    → IsSound s
    → s.mutex ≡ true
locked_by s i c e ne one h =
    ground (arith, total-ge works s.consumers i absent (rw e ne), ap works e, one, h.exclusive)

mutex_most : (m : Bool) → (if m then 1 else 0) ≤ 1
mutex_most true = omega arith
mutex_most false = omega arith

-- The threads that are not in the critical section while a consumer is.
IsFresh-of-outside : (p : Producer) (head : List ℕ) → producer_holds p ≡ 0 → IsFresh p head
IsFresh-of-outside outside head h = tt
IsFresh-of-outside linked head h = tt
IsFresh-of-outside (filled val) head h = tt
IsFresh-of-outside (locked val) head h = tt
IsFresh-of-outside (joined val rest) head h = absurd (omega arith)

-- A consumer prints the head: it is alone, so nobody else has printed it.
pub print-IsSound :
    (s : Store) (i val : ℕ) (rest : List ℕ)
    → get_or s.consumers i absent ≡ draining
    → s.head ≡ val ∷ rest
    → IsSound s
    → IsSound (print s i val)
unfolding print count
print-IsSound s i val rest e cons h = record {
  exclusive = omega (arith, works_less, printed_more, h.exclusive);
  conserved = λ v.
      rw (after, cons)
        (omega (
          arith,
          count-append v s.log (val ∷ []),
          subst (IsConserved v) before (rw cons at (h.conserved v)),
        ));
  fresh = h.fresh;
  started = h.started;
}
  where
    IsConserved : ℕ → ℕ → Type 0
    IsConserved v n =
        count v s.log + count v (val ∷ rest) + in_hand v s.producer
        ≡ made s.beginnum v + half_taken v n (val ∷ rest)

    ne : get_or s.consumers i absent ≢ absent
    ne = rw e (λ q. cc)

    works_less : total works (set s.consumers i printed) + 1 ≡ total works s.consumers
    works_less = omega (arith, total-set works s.consumers i printed absent ne, ap works e)

    printed_more : total has_printed (set s.consumers i printed) ≡ total has_printed s.consumers + 1
    printed_more =
        omega (arith, total-set has_printed s.consumers i printed absent ne, ap has_printed e)

    before : total has_printed s.consumers ≡ 0
    before = omega (arith, works_less, h.exclusive, mutex_most s.mutex)

    after : total has_printed (set s.consumers i printed) ≡ 1
    after = omega (arith, printed_more, before)

split_head : (v : ℕ) (xs : List ℕ) → count v xs ≡ count v (take 1 xs) + count v (drop 1 xs)
unfolding count
split_head v [] = refl
split_head v (x ∷ xs) = omega arith

-- It unlinks what it has printed, which is still the head.
pub pop-IsSound :
    (s : Store) (i : ℕ) → get_or s.consumers i absent ≡ printed → IsSound s → IsSound (pop s i)
unfolding pop
pop-IsSound s i e h = record {
  exclusive = omega (arith, works_more, printed_less, h.exclusive);
  conserved = λ v.
      rw after (omega (arith, split_head v s.head, subst (IsConserved v) before (h.conserved v)));
  fresh =
      IsFresh-of-outside s.producer (drop 1 s.head)
        (omega (arith, before, h.exclusive, mutex_most s.mutex));
  started = h.started;
}
  where
    IsConserved : ℕ → ℕ → Type 0
    IsConserved v n =
        count v s.log + count v s.head + in_hand v s.producer
        ≡ made s.beginnum v + half_taken v n s.head

    ne : get_or s.consumers i absent ≢ absent
    ne = rw e (λ q. cc)

    works_more : total works (set s.consumers i draining) ≡ total works s.consumers + 1
    works_more = omega (arith, total-set works s.consumers i draining absent ne, ap works e)

    printed_less :
        total has_printed (set s.consumers i draining) + 1 ≡ total has_printed s.consumers
    printed_less =
        omega (arith, total-set has_printed s.consumers i draining absent ne, ap has_printed e)

    before : total has_printed s.consumers ≡ 1
    before = omega (arith, printed_less, h.exclusive, mutex_most s.mutex)

    after : total has_printed (set s.consumers i draining) ≡ 0
    after = omega (arith, printed_less, before)

-- The producer links its node to the list as it still is, of which nothing is half taken.
pub link-IsSound :
    (s : Store) (val : ℕ) (rest : List ℕ)
    → s.producer ≡ joined val rest
    → IsSound s
    → IsSound (record s { head = val ∷ rest; producer = linked })
link-IsSound s val rest at_p h = record {
  exclusive = omega (arith, h.exclusive, ap producer_holds at_p);
  conserved = λ v. rw before (
      omega (
        arith,
        subst (IsConserved v) before (h.conserved v),
        ap (in_hand v) at_p,
        count-cons v val rest,
        ap (count v) same,
      ));
  fresh = tt;
  started = h.started;
}
  where
    IsConserved : ℕ → ℕ → Type 0
    IsConserved v n =
        count v s.log + count v s.head + in_hand v s.producer
        ≡ made s.beginnum v + half_taken v n s.head

    same : rest ≡ s.head
    same = subst (λ p. IsFresh p s.head) at_p h.fresh

    before : total has_printed s.consumers ≡ 0
    before = omega (arith, h.exclusive, ap producer_holds at_p, mutex_most s.mutex)
