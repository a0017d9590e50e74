-- ===== src/Echo/Epoll.antt =====
-- select_poll_epoll/epoll_server2.c: the echo server on epoll, in level mode and in edge mode.
pub mod Level
pub mod Edge
use linux_api_and_socket_pro.Common.{
  ℕ, zero, suc, ◌+◌, ◌-◌, ◌*◌, ◌/◌, ◌%◌, ◌^◌, ◌≤◌, ◌<◌, min, ◌≡◌, refl, sym, ap, ap₂, subst, ◌∙◌,
  ◌≢◌, ◌↔◌, ◌⊎◌, inl, inr, Bool, true, false, not, ◌&&◌, ◌||◌, Option, none, some, List, [], ◌∷◌,
  ◌++◌, map, append-nil, append_assoc, arith, dec_lt, dec_le, ℕ_discrete, ltb, leb, ◌==◌,
  if◌then◌else◌, ==_iff, ==_refl, ne_test, Bool-cases, Option-cases, codes, length, get_or, set,
  take, drop, replicate, All, length-append, length-set, length-replicate, get_or-set_self,
  get_or-set_ne, take-append-drop, length-take, length-drop, All-append, total, total-append,
  total-replicate, total-set, total-ge,
}
use linux_api_and_socket_pro.Echo.Buffer.{
  toupper, upper_string, read_into, echo, Answer, bytes, end, failed,
}

abbrev pub buff_size : ℕ
buff_size = 6

-- `char rev_buff[BUFF_SIZE] = { 0 }`
abbrev pub new_buff : List ℕ
new_buff = replicate buff_size 0

-- the calls that change something: `exits` is the end of the program
pub data Call : Type 0 where
  ctl_add : (fd : ℕ) (enable_et : Bool) → Call
  set_nonblocking : (fd : ℕ) → Call
  write : (fd : ℕ) (block : List ℕ) → Call
  ctl_del : (fd : ℕ) → Call
  close : (fd : ℕ) → Call
  exits : Call

-- An event of `epoll_wait`: its descriptor, whether it has EPOLLIN, what `accept` gives, and what the reads give;
-- a read past the end of `answers` fails with EAGAIN.
pub record Event : Type 0 where
  pub fd : ℕ
  pub readable : Bool
  pub accepted : Option ℕ
  pub answers : List Answer

abbrev pub eintr : ℕ
eintr = 4

abbrev pub eagain : ℕ
eagain = 11

-- `epoll_addfd`; for the -1 of a failed `accept` its calls fail, and change nothing.
unfoldable pub epoll_addfd : Option ℕ → (enable_et : Bool) → List Call
epoll_addfd none enable_et = []
epoll_addfd (some fd) enable_et = ctl_add fd enable_et ∷ set_nonblocking fd ∷ []

-- One read in level mode: the calls and the buffer; `none` is a loop past the end of the buffer.
unfoldable pub lt_read : (fd : ℕ) (buff : List ℕ) → List Answer → Option (List Call × List ℕ)
unfolding echo
lt_read fd buff [] = some (exits ∷ [], buff)
lt_read fd buff (bytes input ∷ answers) = elim (echo buff input) [
  | none ↦ none
  | some (sent, b) ↦ some (write fd sent ∷ [], b)
]
lt_read fd buff (end ∷ answers) = some (ctl_del fd ∷ close fd ∷ [], buff)
lt_read fd buff (failed errno ∷ answers) = some (exits ∷ [], buff)

-- one turn of the loop of `lt_work`
unfoldable pub lt_turn : (listenfd : ℕ) (buff : List ℕ) → Event → Option (List Call × List ℕ)
unfolding lt_read epoll_addfd
lt_turn listenfd buff e =
    if e.fd == listenfd
    then some (epoll_addfd e.accepted false, buff)
    else if e.readable
    then lt_read e.fd buff e.answers
    else some ([], buff)

unfoldable pub exited : List Call → Bool
exited [] = false
exited (exits ∷ calls) = true
exited (_ ∷ calls) = exited calls

-- The loop over the events, which all use one buffer.
unfoldable pub lt_loop : (listenfd : ℕ) (buff : List ℕ) → List Event → Option (List Call)
unfolding lt_turn exited
lt_loop listenfd buff [] = some []
lt_loop listenfd buff (e ∷ events) = elim (lt_turn listenfd buff e) [
  | none ↦ none
  | some (calls, b) ↦
      let rest = lt_loop listenfd b events in
      if exited calls
      then some calls
      else elim rest [ none ↦ none | some more ↦ some (calls ++ more) ]
]

unfoldable pub lt_work : (listenfd : ℕ) → List Event → Option (List Call)
unfolding lt_loop
lt_work listenfd events = lt_loop listenfd new_buff events

-- after the loop of `recv` in edge mode: the last answer was no bytes
unfoldable pub et_end : (fd : ℕ) → Answer → List Call
et_end fd (bytes input) = []
et_end fd end = ctl_del fd ∷ close fd ∷ []
et_end fd (failed errno) =
    if (errno == eagain) || (errno == eintr) then [] else ctl_del fd ∷ close fd ∷ []

-- The loop of `recv` in edge mode, and what follows it.
unfoldable pub et_read : (fd : ℕ) (buff : List ℕ) → List Answer → Option (List Call × List ℕ)
unfolding et_end
et_read fd buff [] = some (et_end fd (failed eagain), buff)
et_read fd buff (end ∷ answers) = some (et_end fd end, buff)
et_read fd buff (failed errno ∷ answers) = some (et_end fd (failed errno), buff)
et_read fd buff (bytes input ∷ answers) = elim (echo buff input) [
  | none ↦ none
  | some (sent, b) ↦ elim (et_read fd b answers) [
    | none ↦ none
    | some (calls, b') ↦ some (write fd sent ∷ calls, b')
  ]
]

unfoldable pub et_turn : (listenfd : ℕ) (buff : List ℕ) → Event → Option (List Call × List ℕ)
unfolding et_read epoll_addfd
et_turn listenfd buff e =
    if e.fd == listenfd
    then some (epoll_addfd e.accepted true, buff)
    else if e.readable
    then et_read e.fd buff e.answers
    else some ([], buff)

unfoldable pub et_loop : (listenfd : ℕ) (buff : List ℕ) → List Event → Option (List Call)
unfolding et_turn
et_loop listenfd buff [] = some []
et_loop listenfd buff (e ∷ events) = elim (et_turn listenfd buff e) [
  | none ↦ none
  | some (calls, b) ↦ elim (et_loop listenfd b events) [
    | none ↦ none
    | some more ↦ some (calls ++ more)
  ]
]

unfoldable pub et_work : (listenfd : ℕ) → List Event → Option (List Call)
unfolding et_loop
et_work listenfd events = et_loop listenfd new_buff events
