-- ===== src/Echo/Select.antt =====
-- select_poll_epoll/select_server.c: the echo server on `select`, with a set of descriptors below FD_SETSIZE.
pub mod Rounds
pub mod Accept
pub mod Refines
use linux_api_and_socket_pro.Common.{
  ℕ, zero, suc, ◌+◌, ◌-◌, ◌*◌, ◌/◌, ◌%◌, ◌^◌, ◌≤◌, ◌<◌, min, ◌≡◌, refl, sym, ap, ap₂, subst, ◌∙◌,
  ◌≢◌, ◌↔◌, ◌⊎◌, inl, inr, Bool, true, false, not, ◌&&◌, ◌||◌, Option, none, some, List, [], ◌∷◌,
  ◌++◌, map, append-nil, append_assoc, arith, dec_lt, dec_le, ℕ_discrete, ltb, leb, ◌==◌,
  if◌then◌else◌, ==_iff, ==_refl, ne_test, Bool-cases, Option-cases, codes, length, get_or, set,
  take, drop, replicate, All, length-append, length-set, length-replicate, get_or-set_self,
  get_or-set_ne, take-append-drop, length-take, length-drop, All-append, total, total-nil,
  total-cons, total-append, total-replicate, total-set, total-ge,
}
use linux_api_and_socket_pro.Echo.Buffer.{
  toupper, upper_string, read_into, echo, Answer, bytes, end, failed,
}
use linux_api_and_socket_pro.Echo.Poll.{
  table_size, buff_size, Poll, new_poll, Call, write, close, is_free, find_free, larger, add_client,
  Turn, goes_on, breaks, overruns, serve_fd, serve_slot, serve_from, poll_round,
}

-- FD_SETSIZE
abbrev pub set_size : ℕ
set_size = 1024

-- the locals of the loop
pub record Select : Type 0 where
  pub client_set : List Bool
  pub max_fd : ℕ
  pub rev_buff : List ℕ

-- FD_SET, which writes outside the set for a descriptor that it has no bit for, and for -1
unfoldable pub fd_set : Option ℕ → List Bool → Option (List Bool)
fd_set none fds = none
fd_set (some fd) fds = if ltb fd set_size then some (set fds fd true) else none

-- FD_CLR of a descriptor for which the set has a bit
unfoldable pub fd_clr : ℕ → List Bool → List Bool
fd_clr fd fds = set fds fd false

-- FD_ISSET
unfoldable pub fd_isset : ℕ → List Bool → Bool
fd_isset fd fds = get_or fds fd false

-- before the loop
unfoldable pub new_select : (lfd : ℕ) → Option Select
unfolding fd_set
new_select lfd = elim (fd_set (some lfd) (replicate set_size false)) [
  | none ↦ none
  | some fds ↦ some (record { client_set = fds; max_fd = lfd; rev_buff = replicate 512 0 })
]

-- a new client, `none` for the -1 of a failed `accept`
unfoldable pub accept_fd : Option ℕ → Select → Option Select
unfolding fd_set
accept_fd none s = none
accept_fd (some cfd) s = elim (fd_set (some cfd) s.client_set) [
  | none ↦ none
  | some fds ↦
      some (record s { client_set = fds; max_fd = if ltb s.max_fd cfd then cfd else s.max_fd })
]

-- what a turn of the loop over the descriptors does: it goes on, it leaves the loop, or it is outside an array
pub data FdTurn : Type 0 where
  served : (calls : List Call) (after : Select) → FdTurn
  leaves : FdTurn
  outside : FdTurn

-- a descriptor that is in `reads`
unfoldable pub serve_ready : Select → (i : ℕ) → Answer → FdTurn
unfolding echo fd_clr
serve_ready s i (bytes input) = elim (echo s.rev_buff input) [
  | none ↦ outside
  | some (sent, b) ↦ served (write i sent ∷ []) (record s { rev_buff = b })
]
serve_ready s i end = served (close i ∷ []) (record s { client_set = fd_clr i s.client_set })
serve_ready s i (failed errno) = leaves

-- The loop over so many descriptors from `i` on; `none` is an access outside an array.
unfoldable pub serve_reads :
    (reads : ℕ → Bool) (answers : ℕ → Answer) (rounds i : ℕ) → Select → Option (List Call × Select)
unfolding serve_ready
serve_reads reads answers zero i s = some ([], s)
serve_reads reads answers (suc rounds) i s =
    elim (if reads i then serve_ready s i (answers i) else served [] s) [
      | outside ↦ none
      | leaves ↦ some ([], s)
      | served calls after ↦ elim (serve_reads reads answers rounds (i + 1) after) [
        | none ↦ none
        | some (more, last) ↦ some (calls ++ more, last)
      ]
    ]

-- One turn of the main loop. `ready` says which descriptors `select` leaves in `reads` of those that are in it, all
-- of them if it fails.
unfoldable pub select_round :
    (lfd : ℕ) (ready : ℕ → Bool) (answers : ℕ → Answer) (cfd : Option ℕ)
    → Select
    → Option (List Call × Select)
unfolding fd_isset accept_fd serve_reads
select_round lfd ready answers cfd s =
    let reads : ℕ → Bool = λ i. fd_isset i s.client_set && ready i in
    elim (if reads lfd then accept_fd cfd s else some s) [
      | none ↦ none
      | some q ↦ serve_reads reads answers (q.max_fd - lfd) (lfd + 1) q
    ]

-- A round as the kernel and the clients make it: what is ready, what is read, and who connects.
pub record Round : Type 0 where
  pub ready : ℕ → Bool
  pub answers : ℕ → Answer
  pub cfd : Option ℕ

-- The main loop over so many rounds.
unfoldable pub select_rounds : (lfd : ℕ) → List Round → Select → Option (List Call × Select)
unfolding select_round
select_rounds lfd [] s = some ([], s)
select_rounds lfd (r ∷ rs) s = elim (select_round lfd r.ready r.answers r.cfd s) [
  | none ↦ none
  | some (calls, after) ↦ elim (select_rounds lfd rs after) [
    | none ↦ none
    | some (more, last) ↦ some (calls ++ more, last)
  ]
]
