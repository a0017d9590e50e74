-- ===== src/Setup.antt =====
-- How the servers open their listening sockets: the start of main in select_poll_epoll, tcp_code and http_code/epoll,
-- and init of server_code/server.c.
pub mod Listening
mod Tests
use linux_api_and_socket_pro.Common.{
  ℕ, zero, suc, ◌+◌, ◌-◌, ◌*◌, ◌/◌, ◌%◌, ◌^◌, ◌≤◌, ◌<◌, min, ◌≡◌, refl, sym, ap, ap₂, subst, ◌∙◌,
  ◌≢◌, ◌↔◌, ◌⊎◌, inl, inr, Bool, true, false, not, ◌&&◌, ◌||◌, Option, none, some, List, [], ◌∷◌,
  ◌++◌, map, append-nil, append_assoc, arith, dec_lt, dec_le, ℕ_discrete, ltb, leb, ◌==◌,
  if◌then◌else◌, ==_iff, ==_refl, ne_test, Bool-cases, Option-cases, codes, length, get_or, set,
  take, drop, replicate, All, length-append, length-set, length-replicate, get_or-set_self,
  get_or-set_ne, take-append-drop, length-take, length-drop, All-append, total, total-nil,
  total-cons, total-append, total-replicate, total-set, total-ge,
}

-- what the calls give: the descriptor of `socket`, and whether `bind` and `listen` succeed
pub record Os : Type 0 where
  pub socket : Option ℕ
  pub binds : Bool
  pub listens : Bool

-- the calls; `exits` is `exit`, and `aborts` an `assert` that fails
pub data Call : Type 0 where
  socket : Call
  reuse_address : (fd : ℕ) → Call
  bind : (fd : Option ℕ) (port : ℕ) → Call
  listen : (fd : ℕ) (backlog : ℕ) → Call
  chdir : Call
  usage : Call
  exits : Call
  aborts : Call

-- `htons` takes 16 bits
unfoldable pub htons : ℕ → ℕ
htons port = port % 2 ^ 16

-- `bind` and `listen`, each followed by its check; the result is the socket that `main` goes on with
unfoldable pub bind_listen : (on_error : Call) (fd port backlog : ℕ) → Os → List Call × Option ℕ
unfolding htons
bind_listen on_error fd port backlog os =
    if os.binds
    then (if os.listens
        then (bind (some fd) (htons port) ∷ listen fd backlog ∷ [], some fd)
        else (bind (some fd) (htons port) ∷ listen fd backlog ∷ on_error ∷ [], none))
    else (bind (some fd) (htons port) ∷ on_error ∷ [], none)

-- the calls that come before those of `r`
unfoldable pub before : List Call → List Call × Option ℕ → List Call × Option ℕ
before calls (more, fd) = (calls ++ more, fd)

-- `socket`, its check, SO_REUSEADDR, `bind` and `listen`
unfoldable pub open_reusable : (port backlog : ℕ) → Os → List Call × Option ℕ
unfolding bind_listen before
open_reusable port backlog os = elim os.socket [
  | none ↦ (socket ∷ exits ∷ [], none)
  | some fd ↦ before (socket ∷ reuse_address fd ∷ []) (bind_listen exits fd port backlog os)
]

unfoldable pub poll_setup : Os → List Call × Option ℕ
unfolding open_reusable
poll_setup os = open_reusable 9999 5 os

unfoldable pub select_setup : Os → List Call × Option ℕ
unfolding open_reusable
select_setup os = open_reusable 9999 5 os

unfoldable pub epoll_setup : Os → List Call × Option ℕ
unfolding open_reusable
epoll_setup os = open_reusable 9999 5 os

unfoldable pub epoll2_setup : Os → List Call × Option ℕ
unfolding open_reusable
epoll2_setup os = open_reusable 9999 5 os

-- `init` of server_code/server.c
unfoldable pub init : Os → List Call × Option ℕ
unfolding open_reusable
init os = open_reusable 66666 20 os

unfoldable pub thread_setup : Os → List Call × Option ℕ
unfolding bind_listen before
thread_setup os = elim os.socket [
  | none ↦ (socket ∷ exits ∷ [], none)
  | some fd ↦ before (socket ∷ []) (bind_listen exits fd 9999 5 os)
]

-- The socket is not checked; `bind` of -1 fails.
unfoldable pub fork_setup : Os → List Call × Option ℕ
unfolding bind_listen before htons
fork_setup os = elim os.socket [
  | none ↦ (socket ∷ bind none (htons 9999) ∷ exits ∷ [], none)
  | some fd ↦ before (socket ∷ []) (bind_listen exits fd 9999 5 os)
]

-- select_poll_epoll/mtlt.cpp after the test of its arguments, with the port that one of them gives
unfoldable pub mtlt_socket : (port : ℕ) → Os → List Call × Option ℕ
unfolding bind_listen before
mtlt_socket port os = elim os.socket [
  | none ↦ (socket ∷ aborts ∷ [], none)
  | some fd ↦ before (socket ∷ []) (bind_listen aborts fd port 5 os)
]

unfoldable pub mtlt_setup : (argc port : ℕ) → Os → List Call × Option ℕ
unfolding mtlt_socket
mtlt_setup argc port os = if leb argc 2 then (usage ∷ [], none) else mtlt_socket port os

-- http_code/epoll/main.c after the test of its arguments, with whether `chdir` succeeds; what `listen` gives is not
-- looked at
unfoldable pub http_socket : (chdirs : Bool) → Os → List Call × Option ℕ
unfolding htons
http_socket false os = (chdir ∷ aborts ∷ [], none)
http_socket true os = elim os.socket [
  | none ↦ (chdir ∷ socket ∷ aborts ∷ [], none)
  | some fd ↦
      let calls = chdir ∷ socket ∷ reuse_address fd ∷ bind (some fd) (htons 9999) ∷ [] in
      if os.binds then (calls ++ (listen fd 64 ∷ []), some fd) else (calls ++ (aborts ∷ []), none)
]

unfoldable pub http_setup : (argc : ℕ) (chdirs : Bool) → Os → List Call × Option ℕ
unfolding http_socket
http_setup argc chdirs os = if ltb argc 2 then (usage ∷ exits ∷ [], none) else http_socket chdirs os
