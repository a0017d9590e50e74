-- ===== src/Echo/Drain.antt =====
-- select_poll_epoll/epoll_server.c: its edge mode, which differs from that of epoll_server2.c. The calls and events
-- are those of Echo/Epoll.
pub mod Twice
use linux_api_and_socket_pro.Common.{
  ℕ, zero, suc, ◌+◌, ◌-◌, ◌*◌, ◌/◌, ◌%◌, ◌^◌, ◌≤◌, ◌<◌, min, ◌≡◌, refl, sym, ap, ap₂, subst, ◌∙◌,
  ◌≢◌, ◌↔◌, ◌⊎◌, inl, inr, Bool, true, false, not, ◌&&◌, ◌||◌, Option, none, some, List, [], ◌∷◌,
  ◌++◌, map, append-nil, append_assoc, arith, dec_lt, dec_le, ℕ_discrete, ltb, leb, ◌==◌,
  if◌then◌else◌, ==_iff, ==_refl, ne_test, Bool-cases, Option-cases, codes, length, get_or, set,
  take, drop, replicate, All, length-append, length-set, length-replicate, get_or-set_self,
  get_or-set_ne, take-append-drop, length-take, length-drop, All-append, total, total-nil,
  total-cons, total-append, total-replicate, total-set, total-ge,
}
use linux_api_and_socket_pro.Echo.Buffer.{
  toupper, upper_string, read_into, echo, Answer, bytes, end, failed,
}
use linux_api_and_socket_pro.Echo.Epoll.{
  buff_size, new_buff, Call, ctl_add, set_nonblocking, write, ctl_del, close, exits, Event, eintr,
  eagain, epoll_addfd, lt_read, lt_turn, exited, lt_loop, lt_work, et_end, et_read, et_turn,
  et_loop, et_work,
}

-- after `close(fd)` without a break: `recv` on the closed descriptor fails with EBADF, and it is closed again
unfoldable pub recv_closed : (fd : ℕ) → List Call
recv_closed fd = close fd ∷ []

-- The endless loop of `recv`, with the buffer cleared before each call; a call past the end of the answers fails
-- with EAGAIN. `none` is a loop past the end of the buffer.
unfoldable pub drain : (fd : ℕ) → List Answer → Option (List Call)
unfolding echo recv_closed
drain fd [] = some []
drain fd (failed errno ∷ answers) = some (if errno == eagain then [] else close fd ∷ [])
drain fd (end ∷ answers) = some (close fd ∷ recv_closed fd)
drain fd (bytes input ∷ answers) = elim (echo new_buff input) [
  | none ↦ none
  | some (sent, b) ↦ elim (drain fd answers) [
    | none ↦ none
    | some calls ↦ some (write fd sent ∷ calls)
  ]
]

unfoldable pub drain_turn : (listenfd : ℕ) → Event → Option (List Call)
unfolding drain epoll_addfd
drain_turn listenfd e =
    if e.fd == listenfd
    then some (epoll_addfd e.accepted true)
    else if e.readable
    then drain e.fd e.answers
    else some []

-- `et_work` of epoll_server.c
unfoldable pub drain_events : (listenfd : ℕ) → List Event → Option (List Call)
unfolding drain_turn
drain_events listenfd [] = some []
drain_events listenfd (e ∷ events) = elim (drain_turn listenfd e) [
  | none ↦ none
  | some calls ↦ elim (drain_events listenfd events) [
    | none ↦ none
    | some more ↦ some (calls ++ more)
  ]
]
