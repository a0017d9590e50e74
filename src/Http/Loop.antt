-- ===== src/Http/Loop.antt =====
-- http_code/epoll/http_epoll.c: new connections, and the loop over the events of one `epoll_wait`.
pub mod Closing
use linux_api_and_socket_pro.Common.{
  ℕ, zero, suc, ◌+◌, ◌-◌, ◌*◌, ◌/◌, ◌%◌, ◌^◌, ◌≤◌, ◌<◌, min, ◌≡◌, refl, sym, ap, ap₂, subst, ◌∙◌,
  ◌≢◌, ◌↔◌, ◌⊎◌, inl, inr, Bool, true, false, not, ◌&&◌, ◌||◌, Option, none, some, List, [], ◌∷◌,
  ◌++◌, map, append-nil, append_assoc, arith, dec_lt, dec_le, ℕ_discrete, ltb, leb, ◌==◌,
  if◌then◌else◌, ==_iff, ==_refl, ne_test, Bool-cases, Option-cases, codes, length, get_or, set,
  take, drop, replicate, All, length-append, length-set, length-replicate, get_or-set_self,
  get_or-set_ne, take-append-drop, length-take, length-drop, All-append, total, total-nil,
  total-cons, total-append, total-replicate, total-set, total-ge,
}
use linux_api_and_socket_pro.Http.Bytes.{
  cr, lf, blank, cstr, str_eq, strrchr, tolower, isspace, isxdigit, bit_or, decimal_from, decimal,
  str_eq_refl, strrchr-append, strrchr_missing, cstr-nul,
}
use linux_api_and_socket_pro.Http.GetLine.{Socket, after_cr, get_line_loop, get_line}
use linux_api_and_socket_pro.Http.Files.{Mode, directory, regular, special, Stat, FileSystem}
use linux_api_and_socket_pro.Http.Epoll.{
  scan_word, skip_space, scan_request, request_path, respond_found, respond, http_get_request,
  is_get, Call, send, ctl_add, ctl_del, set_flags, close, abort, overrun, read_on, read_rest,
  read_request, disconnect, do_read_of, do_read,
}

abbrev pub epollin : ℕ
epollin = 0x1

abbrev pub epollet : ℕ
epollet = 0x80000000

abbrev pub o_nonblock : ℕ
o_nonblock = 0x800

-- One event of `epoll_wait`, with the answers of the kernel while it is handled: what `accept` gives, whether
-- `epoll_ctl` succeeds, the flags of a new socket, and the bytes that can be read.
pub record Event : Type 0 where
  pub data_fd : ℕ
  pub accepted : Option ℕ
  pub ctl : Bool
  pub flags : ℕ
  pub incoming : Socket

-- `set_nonblocking`, on a descriptor with the flags `oldfd`
unfoldable pub set_nonblocking : (oldfd fd : ℕ) → List Call
unfolding bit_or
set_nonblocking oldfd fd = set_flags fd (bit_or oldfd o_nonblock) ∷ []

unfoldable pub epoll_addfd : (added : Bool) (oldfd fd : ℕ) (enable_et : Bool) → List Call
unfolding set_nonblocking
epoll_addfd added oldfd fd enable_et =
    ctl_add fd (if enable_et then bit_or epollin epollet else epollin)
    ∷ (if added then set_nonblocking oldfd fd else abort ∷ [])

unfoldable pub do_accept : (accepted : Option ℕ) (added : Bool) (oldfd : ℕ) → List Call
unfolding epoll_addfd
do_accept none added oldfd = abort ∷ []
do_accept (some cfd) added oldfd = epoll_addfd added oldfd cfd true

-- One turn of the loop; `do_read` always returns.
unfoldable pub handle : FileSystem → (lfd : ℕ) → Event → List Call
unfolding do_read do_accept
handle fs lfd e =
    if e.data_fd == lfd
    then do_accept e.accepted e.ctl e.flags
    else elim (do_read fs e.ctl e.data_fd e.incoming) [ none ↦ [] | some (calls, s) ↦ calls ]

-- the last call of a list ended the program, or what is known of it
unfoldable pub aborted : List Call → Bool
aborted [] = false
aborted (abort ∷ calls) = true
aborted (overrun ∷ calls) = true
aborted (_ ∷ calls) = aborted calls

-- The loop over the events of one `epoll_wait`; a failed `assert` ends it.
unfoldable pub epoll_events : FileSystem → (lfd : ℕ) → List Event → List Call
unfolding handle aborted
epoll_events fs lfd [] = []
epoll_events fs lfd (e ∷ events) =
    let rest = epoll_events fs lfd events in
    let calls = handle fs lfd e in if aborted calls then calls else calls ++ rest

-- The main loop over so many calls of `epoll_wait`; one that fails reports no events.
unfoldable pub epoll_waits : FileSystem → (lfd : ℕ) → List (List Event) → List Call
unfolding epoll_events
epoll_waits fs lfd [] = []
epoll_waits fs lfd (events ∷ waits) =
    let rest = epoll_waits fs lfd waits in
    let calls = epoll_events fs lfd events in if aborted calls then calls else calls ++ rest

-- `epoll_run`, with whether `epoll_create` and `epoll_ctl` succeed and the flags of the listening socket
unfoldable pub epoll_run :
    FileSystem → (created added : Bool) → (oldfd lfd : ℕ) → List (List Event) → List Call
unfolding epoll_addfd epoll_waits
epoll_run fs created added oldfd lfd waits =
    if not created
    then abort ∷ []
    else (let calls = epoll_addfd added oldfd lfd true in
        if aborted calls then calls else calls ++ epoll_waits fs lfd waits)
