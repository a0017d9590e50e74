-- ===== src/Threads/Sem.antt =====
-- thread_code/sem_thread.c: one producer and one consumer over six slots and two semaphores.
pub mod Order
use linux_api_and_socket_pro.Common.{
  ℕ, zero, suc, ◌+◌, ◌-◌, ◌*◌, ◌/◌, ◌%◌, ◌^◌, ◌≤◌, ◌<◌, min, ◌≡◌, refl, sym, ap, ap₂, subst, ◌∙◌,
  ◌≢◌, ◌↔◌, ◌⊎◌, inl, inr, Bool, true, false, not, ◌&&◌, ◌||◌, Option, none, some, List, [], ◌∷◌,
  ◌++◌, map, append-nil, append_assoc, arith, dec_lt, dec_le, ℕ_discrete, ltb, leb, ◌==◌,
  if◌then◌else◌, ==_iff, ==_refl, ne_test, Bool-cases, Option-cases, codes, length, get_or, set,
  take, drop, replicate, All, length-append, length-set, length-replicate, get_or-set_self,
  get_or-set_ne, take-append-drop, length-take, length-drop, All-append, total, total-append,
  total-replicate, total-set, total-ge,
}

-- where the producer stands in its loop: before `sem_wait`, behind it, and before `sem_post`
pub data Producer : Type 0 where
  outside allowed stored : Producer

pub data Consumer : Type 0 where
  idle granted printed : Consumer

-- The globals, the two loop counters, both threads, and a log of the numbers that the consumer prints.
pub record Ring : Type 0 where
  pub value : List ℕ
  pub beginnum : ℕ
  pub s_full : ℕ
  pub s_empty : ℕ
  pub made : ℕ
  pub taken : ℕ
  pub producer : Producer
  pub consumer : Consumer
  pub log : List ℕ

abbrev pub slots : ℕ
slots = 6

abbrev pub int_max : ℕ
int_max = 0x7fffffff

-- after the two calls of `sem_init`, with the threads created
unfoldable pub start : Ring
start = record {
  value = replicate slots 0;
  beginnum = 100;
  s_full = 0;
  s_empty = slots;
  made = 0;
  taken = 0;
  producer = outside;
  consumer = idle;
  log = [];
}

-- `value[i%6] = beginnum++; i++`
unfoldable pub produce : Ring → Ring
produce r = record r {
  value = set r.value (r.made % slots) r.beginnum;
  beginnum = r.beginnum + 1;
  made = r.made + 1;
  producer = stored;
}

-- the consumer's `printf` of `value[i%6]`, and `i++`
unfoldable pub consume : Ring → Ring
consume r = record r {
  log = r.log ++ (get_or r.value (r.taken % slots) 0 ∷ []);
  taken = suc r.taken;
  consumer = printed;
}

-- The moves of the threads, in any order; `beginnum` stays an `int`.
pub data Step (r : Ring) : Ring → Type 0 where
  wait_empty :
      r.producer ≡ outside
      → 0 < r.s_empty
      → Step r (record r { s_empty = r.s_empty - 1; producer = allowed })
  make : r.producer ≡ allowed → r.beginnum < int_max → Step r (produce r)
  post_full : r.producer ≡ stored → Step r (record r { s_full = r.s_full + 1; producer = outside })
  wait_full :
      r.consumer ≡ idle
      → 0 < r.s_full
      → Step r (record r { s_full = r.s_full - 1; consumer = granted })
  get : r.consumer ≡ granted → Step r (consume r)
  post_empty : r.consumer ≡ printed → Step r (record r { s_empty = r.s_empty + 1; consumer = idle })

pub data Reach (r : Ring) : Ring → Type 0 where
  here : Reach r r
  next : {s t : Ring} → Reach r s → Step s t → Reach r t
