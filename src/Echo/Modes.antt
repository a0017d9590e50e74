-- ===== src/Echo/Modes.antt =====
-- select_poll_epoll/mtlt.cpp and 9-3mtlt.cpp, which differ in what they print: `lt`, which only prints, and `et`,
-- which sends back what it gets as it is.
pub mod Streams
use linux_api_and_socket_pro.Common.{
  ℕ, zero, suc, ◌+◌, ◌-◌, ◌*◌, ◌/◌, ◌%◌, ◌^◌, ◌≤◌, ◌<◌, min, ◌≡◌, refl, sym, ap, ap₂, subst, ◌∙◌,
  ◌≢◌, ◌↔◌, ◌⊎◌, inl, inr, Bool, true, false, not, ◌&&◌, ◌||◌, Option, none, some, List, [], ◌∷◌,
  ◌++◌, map, append-nil, append_assoc, arith, dec_lt, dec_le, ℕ_discrete, ltb, leb, ◌==◌,
  if◌then◌else◌, ==_iff, ==_refl, ne_test, Bool-cases, Option-cases, codes, length, get_or, set,
  take, drop, replicate, All, length-append, length-set, length-replicate, get_or-set_self,
  get_or-set_ne, take-append-drop, length-take, length-drop, All-append, total, total-nil,
  total-cons, total-append, total-replicate, total-set, total-ge,
}
use linux_api_and_socket_pro.Echo.Main.{main_waits, main_from, Run, run_from, main2, main1}
use linux_api_and_socket_pro.Echo.Buffer.{
  toupper, upper_string, read_into, echo, Answer, bytes, end, failed,
}
use linux_api_and_socket_pro.Echo.Epoll.{
  buff_size, new_buff, Call, ctl_add, set_nonblocking, write, ctl_del, close, exits, Event, eintr,
  eagain, epoll_addfd, lt_read, lt_turn, exited, lt_loop, lt_work, et_end, et_read, et_turn,
  et_loop, et_work,
}
use linux_api_and_socket_pro.Setup.{
  Os, socket, reuse_address, bind, listen, chdir, usage, aborts, htons, bind_listen, before,
  open_reusable, poll_setup, select_setup, epoll_setup, epoll2_setup, init, thread_setup,
  fork_setup, mtlt_socket, mtlt_setup, http_socket, http_setup,
}

-- `addfd`; for the -1 of a failed `accept` its calls fail, and change nothing.
unfoldable pub addfd : Option ℕ → (enable_et : Bool) → List Call
addfd none enable_et = []
addfd (some fd) enable_et = ctl_add fd enable_et ∷ set_nonblocking fd ∷ []

-- one `recv` of `lt`, which fails with EAGAIN past the end of the answers
unfoldable pub lt_recv : (fd : ℕ) → List Answer → List Call
lt_recv fd [] = close fd ∷ []
lt_recv fd (bytes input ∷ answers) = []
lt_recv fd (end ∷ answers) = close fd ∷ []
lt_recv fd (failed errno ∷ answers) = close fd ∷ []

unfoldable pub lt : (listenfd : ℕ) → List Event → List Call
unfolding addfd lt_recv
lt listenfd [] = []
lt listenfd (e ∷ events) =
    let rest = lt listenfd events in
    if e.fd == listenfd
    then addfd e.accepted false ++ rest
    else if e.readable
    then lt_recv e.fd e.answers ++ rest
    else rest

-- The endless loop of `recv` in `et`: after no bytes it closes the descriptor and does not leave, so that the next
-- `recv` fails with EBADF and the descriptor is closed again.
unfoldable pub et_recv : (fd : ℕ) → List Answer → List Call
et_recv fd [] = []
et_recv fd (failed errno ∷ answers) = if errno == eagain then [] else close fd ∷ []
et_recv fd (end ∷ answers) = close fd ∷ close fd ∷ []
et_recv fd (bytes input ∷ answers) = write fd input ∷ et_recv fd answers

unfoldable pub et : (listenfd : ℕ) → List Event → List Call
unfolding addfd et_recv
et listenfd [] = []
et listenfd (e ∷ events) =
    let rest = et listenfd events in
    if e.fd == listenfd
    then addfd e.accepted true ++ rest
    else if e.readable
    then et_recv e.fd e.answers ++ rest
    else rest

-- The main loop with `et` and what follows it; `none` is a failed `epoll_wait`.
unfoldable pub et_waits : (listenfd : ℕ) → List (Option (List Event)) → List Call
unfolding et
et_waits listenfd [] = []
et_waits listenfd (none ∷ waits) = close listenfd ∷ []
et_waits listenfd (some events ∷ waits) = et listenfd events ++ et_waits listenfd waits

-- `main`, with whether `epoll_create` succeeds
unfoldable pub mtlt_main :
    (argc port : ℕ) → Os → (created : Bool) → List (Option (List Event)) → Run
unfolding mtlt_setup run_from addfd et_waits
mtlt_main argc port os created waits = run_from (mtlt_setup argc port os) (λ listenfd.
    some (if created then addfd (some listenfd) true ++ et_waits listenfd waits else exits ∷ []))
