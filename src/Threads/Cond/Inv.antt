-- ===== src/Threads/Cond/Inv.antt =====
-- What holds of the list, the mutex and the threads between moves.
use linux_api_and_socket_pro.Common.{
  ℕ, zero, suc, ◌+◌, ◌≤◌, ◌≡◌, ◌&&◌, List, ltb, leb, ◌==◌, if◌then◌else◌, take, total,
}
use linux_api_and_socket_pro.Threads.Cond.{
  Producer, linked, filled, locked, joined, Consumer, testing, draining, printed, Store,
}
use linux_api_and_socket_pro.Threads.Cond.Count.{count}

-- inside the critical section, other than behind the `printf`
abbrev pub works : Consumer → ℕ
works testing = 1
works draining = 1
works _ = 0

-- a consumer that has printed the head and not unlinked it
abbrev pub has_printed : Consumer → ℕ
has_printed printed = 1
has_printed _ = 0

abbrev pub producer_holds : Producer → ℕ
producer_holds (locked _) = 1
producer_holds (joined _ _) = 1
producer_holds linked = 1
producer_holds _ = 0

-- the value of a node that is not linked yet
abbrev pub in_hand : ℕ → Producer → ℕ
in_hand v (filled val) = if val == v then 1 else 0
in_hand v (locked val) = if val == v then 1 else 0
in_hand v (joined val _) = if val == v then 1 else 0
in_hand v _ = 0

-- What the producer has read as the list is still the list.
abbrev pub IsFresh : Producer → List ℕ → Type 0
IsFresh (joined _ rest) head = rest ≡ head
IsFresh _ head = Unit

-- how often `v` is printed and still in the list, when so many consumers have printed the head
abbrev pub half_taken : ℕ → (printers : ℕ) → List ℕ → ℕ
half_taken v zero head = 0
half_taken v (suc n) head = count v (take 1 head)

-- how many threads are in the critical section
abbrev pub inside : Store → ℕ
inside s = producer_holds s.producer + total works s.consumers + total has_printed s.consumers

abbrev pub made : ℕ → ℕ → ℕ
made beginnum v = if leb 100 v && ltb v beginnum then 1 else 0

pub record IsSound (s : Store) : Type 0 where
  pub exclusive : inside s ≡ (if s.mutex then 1 else 0)
  pub conserved :
      (v : ℕ)
      → count v s.log + count v s.head + in_hand v s.producer
        ≡ made s.beginnum v + half_taken v (total has_printed s.consumers) s.head
  pub fresh : IsFresh s.producer s.head
  pub started : 100 ≤ s.beginnum
