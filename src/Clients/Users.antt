-- ===== src/Clients/Users.antt =====
-- tcp_code/server_thread.c: the table of clients, which `main` fills and the workers empty.
pub mod Inv
pub mod Slots
pub mod Fill
pub mod Empty
pub mod Room
use linux_api_and_socket_pro.Common.{
  ℕ, zero, suc, ◌+◌, ◌-◌, ◌*◌, ◌/◌, ◌%◌, ◌^◌, ◌≤◌, ◌<◌, min, ◌≡◌, refl, sym, ap, ap₂, subst, ◌∙◌,
  ◌≢◌, ◌↔◌, ◌⊎◌, inl, inr, Bool, true, false, not, ◌&&◌, ◌||◌, Option, none, some, List, [], ◌∷◌,
  ◌++◌, map, append-nil, append_assoc, arith, dec_lt, dec_le, ℕ_discrete, ltb, leb, ◌==◌,
  if◌then◌else◌, ==_iff, ==_refl, ne_test, Bool-cases, Option-cases, codes, length, get_or, set,
  take, drop, replicate, All, length-append, length-set, length-replicate, get_or-set_self,
  get_or-set_ne, take-append-drop, length-take, length-drop, All-append, total, total-nil,
  total-cons, total-append, total-replicate, total-set, total-ge,
}

abbrev pub max_user : ℕ
max_user = 21

-- where `main` stands: at the test of `user`; in `accept` for a slot; behind it, before `pthread_create`; before
-- `++user`; between its load, with what was loaded, and its store; and behind the loop
pub data Main : Type 0 where
  testing counting ended : Main
  accepting stored : (i : ℕ) → Main
  loaded : (raised lowered : ℕ) → Main

-- where a worker stands with its slot: in its loop, behind `close`, behind `fd = -1`, between the load of `user--` and
-- its store, behind them
pub data Worker : Type 0 where
  serving closed : (i : ℕ) → Worker
  leaving gone : Worker
  holding : (raised lowered : ℕ) → Worker

-- The table, with `none` for -1; `user` is `raised` less `lowered`, and may be -1 for a moment. A load takes both.
pub record Server : Type 0 where
  pub user_sock : List (Option ℕ)
  pub raised : ℕ
  pub lowered : ℕ
  pub main : Main
  pub workers : List Worker

unfoldable pub start : Server
start = record {
  user_sock = replicate max_user none;
  raised = 0;
  lowered = 0;
  main = testing;
  workers = [];
}

abbrev pub is_free : Option ℕ → Bool
is_free none = true
is_free (some fd) = false

-- The search for a free slot: the first one, or the number of slots.
unfoldable pub find_slot : List (Option ℕ) → ℕ
find_slot [] = 0
find_slot (s ∷ slots) = let later = find_slot slots in if is_free s then 0 else suc later

-- The end of `worker` is in the steps from `close_fd` to `leave`; its loop, which ends at any time, changes nothing here.
-- Who moves next is open: nothing keeps the load and the store of one thread together. The result of `pthread_create`
-- is not looked at. While `main` searches, workers may only free slots, so the search is one step. Where it finds none,
-- the store to the slot behind the table is no case: the table stays as it is.
pub data Step (s : Server) : Server → Type 0 where
  choose :
      s.main ≡ testing
      → s.raised ≢ s.lowered + max_user
      → Step s (record s { main = accepting (find_slot s.user_sock) })
  accept :
      (i fd : ℕ)
      → s.main ≡ accepting i
      → Step s (record s { main = stored i; user_sock = set s.user_sock i (some fd) })
  accept_fails : (i : ℕ) → s.main ≡ accepting i → Step s (record s { main = ended })
  create :
      (i : ℕ)
      → s.main ≡ stored i
      → Step s (record s { main = counting; workers = s.workers ++ (serving i ∷ []) })
  create_fails : (i : ℕ) → s.main ≡ stored i → Step s (record s { main = counting })
  load_user : s.main ≡ counting → Step s (record s { main = loaded s.raised s.lowered })
  count :
      (raised lowered : ℕ)
      → s.main ≡ loaded raised lowered
      → Step s (record s { main = testing; raised = raised + 1; lowered = lowered })
  close_fd :
      (w i : ℕ)
      → get_or s.workers w gone ≡ serving i
      → Step s (record s { workers = set s.workers w (closed i) })
  free_slot :
      (w i : ℕ)
      → get_or s.workers w gone ≡ closed i
      → Step s (record s { workers = set s.workers w leaving; user_sock = set s.user_sock i none })
  load_leave :
      (w : ℕ)
      → get_or s.workers w gone ≡ leaving
      → Step s (record s { workers = set s.workers w (holding s.raised s.lowered) })
  leave :
      (w raised lowered : ℕ)
      → get_or s.workers w gone ≡ holding raised lowered
      → Step s (record s { workers = set s.workers w gone; raised = raised; lowered = lowered + 1 })

pub data Reach (s : Server) : Server → Type 0 where
  here : Reach s s
  next : {t u : Server} → Reach s t → Step t u → Reach s u
