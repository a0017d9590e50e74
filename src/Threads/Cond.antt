-- ===== src/Threads/Cond.antt =====
-- thread_code/cond_thread.c: a producer and any number of consumers over a list under a mutex.
pub mod Count
pub mod Inv
pub mod Moves
pub mod Safety
use linux_api_and_socket_pro.Common.{
  ℕ, zero, suc, ◌+◌, ◌-◌, ◌*◌, ◌/◌, ◌%◌, ◌^◌, ◌≤◌, ◌<◌, min, ◌≡◌, refl, sym, ap, ap₂, subst, ◌∙◌,
  ◌≢◌, ◌↔◌, ◌⊎◌, inl, inr, Bool, true, false, not, ◌&&◌, ◌||◌, Option, none, some, List, [], ◌∷◌,
  ◌++◌, map, append-nil, append_assoc, arith, dec_lt, dec_le, ℕ_discrete, ltb, leb, ◌==◌,
  if◌then◌else◌, ==_iff, ==_refl, ne_test, Bool-cases, Option-cases, codes, length, get_or, set,
  take, drop, replicate, All, length-append, length-set, length-replicate, get_or-set_self,
  get_or-set_ne, take-append-drop, length-take, length-drop, All-append, total, total-nil,
  total-cons, total-append, total-replicate, total-set, total-ge,
}

-- where the producer stands: before a new node, with a node of a value, with the node and the mutex, behind
-- `temp->next = head`, and with the mutex before it unlocks
pub data Producer : Type 0 where
  outside linked : Producer
  filled locked : (val : ℕ) → Producer
  joined : (val : ℕ) (next : List ℕ) → Producer

-- where a consumer stands: without the mutex, at the test of the outer loop, in `pthread_cond_wait`, at the test of the
-- loop that empties the list, and behind its `printf`; `absent` is no consumer
pub data Consumer : Type 0 where
  unlocked testing waiting draining printed absent : Consumer

-- The globals, the threads, and a log of the values that consumers print.
pub record Store : Type 0 where
  pub head : List ℕ
  pub beginnum : ℕ
  pub mutex : Bool
  pub producer : Producer
  pub consumers : List Consumer
  pub log : List ℕ

abbrev pub int_max : ℕ
int_max = 0x7fffffff

-- `main`, with so many consumers
unfoldable pub start : ℕ → Store
start n = record {
  head = [];
  beginnum = 100;
  mutex = false;
  producer = outside;
  consumers = replicate n unlocked;
  log = [];
}

-- `malloc` and `temp->val = beginnum++`
unfoldable pub fill : Store → Store
fill s = record s { beginnum = s.beginnum + 1; producer = filled s.beginnum }

-- the store after consumer `i` has gone to `c`, with the mutex locked or not
abbrev pub at : Store → ℕ → Consumer → Bool → Store
at s i c mutex = record s { consumers = set s.consumers i c; mutex = mutex }

-- `printf` of the value at the head, by consumer `i`
unfoldable pub print : Store → ℕ → (val : ℕ) → Store
print s i val = record s { consumers = set s.consumers i printed; log = s.log ++ (val ∷ []) }

-- `head = head->next`, by consumer `i`, of the head as it is by then
unfoldable pub pop : Store → ℕ → Store
pop s i = record s { head = drop 1 s.head; consumers = set s.consumers i draining }

-- The moves of the threads. A node is linked, and unlinked, in two moves, between which others may move. `pthread_cond_wait` gives the mutex up, and may return at any time that it can have
-- it again, signalled or not.
pub data Step (s : Store) : Store → Type 0 where
  make : s.producer ≡ outside → s.beginnum < int_max → Step s (fill s)
  lock :
      (val : ℕ)
      → s.producer ≡ filled val
      → s.mutex ≡ false
      → Step s (record s { mutex = true; producer = locked val })
  join : (val : ℕ) → s.producer ≡ locked val → Step s (record s { producer = joined val s.head })
  link :
      (val : ℕ) (rest : List ℕ)
      → s.producer ≡ joined val rest
      → Step s (record s { head = val ∷ rest; producer = linked })
  unlock : s.producer ≡ linked → Step s (record s { mutex = false; producer = outside })
  enter :
      (i : ℕ)
      → get_or s.consumers i absent ≡ unlocked
      → s.mutex ≡ false
      → Step s (at s i testing true)
  sleep :
      (i : ℕ) → get_or s.consumers i absent ≡ testing → s.head ≡ [] → Step s (at s i waiting false)
  wake :
      (i : ℕ)
      → get_or s.consumers i absent ≡ waiting
      → s.mutex ≡ false
      → Step s (at s i testing true)
  begin :
      (i : ℕ)
      → get_or s.consumers i absent ≡ testing
      → s.head ≢ []
      → Step s (at s i draining s.mutex)
  show :
      (i val : ℕ) (rest : List ℕ)
      → get_or s.consumers i absent ≡ draining
      → s.head ≡ val ∷ rest
      → Step s (print s i val)
  take_one : (i : ℕ) → get_or s.consumers i absent ≡ printed → Step s (pop s i)
  leave :
      (i : ℕ)
      → get_or s.consumers i absent ≡ draining
      → s.head ≡ []
      → Step s (at s i unlocked false)

pub data Reach (s : Store) : Store → Type 0 where
  here : Reach s s
  next : {t u : Store} → Reach s t → Step t u → Reach s u
