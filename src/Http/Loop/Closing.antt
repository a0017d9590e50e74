-- ===== src/Http/Loop/Closing.antt =====
-- Which descriptors the event loop closes.
use linux_api_and_socket_pro.Common.{
  ℕ, ◌+◌, ◌≤◌, ◌≡◌, refl, inl, inr, Bool, true, false, Option, none, some, List, [], ◌∷◌, ◌++◌, map,
  arith, ℕ_discrete, ◌==◌, if◌then◌else◌, ==_refl, ne_test, Bool-cases,
}
use linux_api_and_socket_pro.Http.Files.{FileSystem}
use linux_api_and_socket_pro.Http.Epoll.{
  http_get_request, is_get, Call, send, ctl_add, ctl_del, set_flags, close, abort, overrun,
  read_request, disconnect, do_read_of, do_read,
}
use linux_api_and_socket_pro.Http.GetLine.{Socket}
use linux_api_and_socket_pro.Http.Loop.{
  Event, set_nonblocking, epoll_addfd, do_accept, handle, aborted, epoll_events, epoll_waits,
  epoll_run,
}

-- how often a list of calls closes a descriptor
unfoldable pub closes : ℕ → List Call → ℕ
closes fd [] = 0
closes fd (close g ∷ calls) = (if g == fd then 1 else 0) + closes fd calls
closes fd (_ ∷ calls) = closes fd calls

-- how often a batch reports a descriptor
unfoldable pub reports : ℕ → List Event → ℕ
reports fd [] = 0
reports fd (e ∷ events) = (if e.data_fd == fd then 1 else 0) + reports fd events

closes-append : (fd : ℕ) (xs ys : List Call) → closes fd (xs ++ ys) ≡ closes fd xs + closes fd ys
unfolding closes
closes-append fd [] ys = omega arith
closes-append fd (send g b ∷ xs) ys = closes-append fd xs ys
closes-append fd (ctl_add g b ∷ xs) ys = closes-append fd xs ys
closes-append fd (ctl_del g ∷ xs) ys = closes-append fd xs ys
closes-append fd (set_flags g b ∷ xs) ys = closes-append fd xs ys
closes-append fd (close g ∷ xs) ys = omega (arith, closes-append fd xs ys)
closes-append fd (abort ∷ xs) ys = closes-append fd xs ys
closes-append fd (overrun ∷ xs) ys = closes-append fd xs ys

closes-send : (fd g : ℕ) (blocks : List (List ℕ)) → closes fd (map (send g) blocks) ≡ 0
unfolding closes
closes-send fd g [] = refl
closes-send fd g (b ∷ blocks) = closes-send fd g blocks

closes-disconnect :
    (fd g : ℕ) (deleted : Bool) → closes fd (disconnect deleted g) ≤ (if g == fd then 1 else 0)
unfolding closes disconnect
closes-disconnect fd g true = ground arith
closes-disconnect fd g false = ground arith

closes-do_accept :
    (fd : ℕ) (accepted : Option ℕ) (added : Bool) (oldfd : ℕ)
    → closes fd (do_accept accepted added oldfd) ≡ 0
unfolding closes do_accept epoll_addfd set_nonblocking
closes-do_accept fd none added oldfd = refl
closes-do_accept fd (some cfd) true oldfd = refl
closes-do_accept fd (some cfd) false oldfd = refl

closes-finished :
    (fd g : ℕ) (deleted get : Bool) (answer : Option (List (List ℕ)))
    → closes fd (
        if get
        then (elim answer [
          | none ↦ overrun ∷ []
          | some blocks ↦ map (send g) blocks ++ disconnect deleted g
        ])
        else [])
      ≤ (if g == fd then 1 else 0)
unfolding closes
closes-finished fd g deleted false answer = ground arith
closes-finished fd g deleted true none = ground arith
closes-finished fd g deleted true (some blocks) = omega (
  arith,
  closes-append fd (map (send g) blocks) (disconnect deleted g),
  closes-send fd g blocks,
  closes-disconnect fd g deleted,
)

closes-read :
    (fs : FileSystem) (fd g : ℕ) (deleted : Bool) (read : Option (List ℕ × Socket))
    → closes fd (elim (do_read_of fs deleted g read) [ none ↦ [] | some (calls, s) ↦ calls ])
      ≤ (if g == fd then 1 else 0)
unfolding closes do_read_of
closes-read fs fd g deleted none = ground arith
closes-read fs fd g deleted (some (line, rest)) =
    closes-finished fd g deleted (is_get line) (http_get_request fs line)

closes-handle :
    (fs : FileSystem) (lfd fd : ℕ) (e : Event)
    → closes fd (handle fs lfd e)
      ≤ (if e.data_fd == lfd then 0 else if e.data_fd == fd then 1 else 0)
unfolding handle do_read
closes-handle fs lfd fd e = elim (ℕ_discrete e.data_fd lfd) [
  | yes same ↦
      rw (same, ==_refl lfd, handle) (omega (arith, closes-do_accept fd e.accepted e.ctl e.flags))
  | no ne ↦
      rw (ne_test e.data_fd lfd ne, handle)
        (closes-read fs fd e.data_fd e.ctl (read_request e.incoming))
]

closes-epoll_events :
    (fs : FileSystem) (lfd fd : ℕ) (events : List Event)
    → closes fd (epoll_events fs lfd events) ≤ (if fd == lfd then 0 else reports fd events)
unfolding epoll_events closes reports
closes-epoll_events fs lfd fd [] = ground arith
closes-epoll_events fs lfd fd (e ∷ events) = elim (Bool-cases (aborted (handle fs lfd e))) [
  | inl ends ↦ rw (ends, epoll_events) (ground (arith, closes-handle fs lfd fd e))
  | inr goes ↦
      rw (goes, epoll_events, closes-append fd (handle fs lfd e) (epoll_events fs lfd events))
        (ground (arith, closes-handle fs lfd fd e, closes-epoll_events fs lfd fd events))
]

-- how often the waits report a descriptor
unfoldable pub reports_in : ℕ → List (List Event) → ℕ
reports_in fd [] = 0
reports_in fd (events ∷ waits) = reports fd events + reports_in fd waits

closes-epoll_waits :
    (fs : FileSystem) (lfd fd : ℕ) (waits : List (List Event))
    → closes fd (epoll_waits fs lfd waits) ≤ (if fd == lfd then 0 else reports_in fd waits)
unfolding epoll_waits closes reports_in
closes-epoll_waits fs lfd fd [] = ground arith
closes-epoll_waits fs lfd fd (events ∷ waits) =
    elim (Bool-cases (aborted (epoll_events fs lfd events))) [
      | inl ends ↦ rw (ends, epoll_waits) (ground (arith, closes-epoll_events fs lfd fd events))
      | inr goes ↦
          rw
            (
              goes,
              epoll_waits,
              closes-append fd (epoll_events fs lfd events) (epoll_waits fs lfd waits),
            )
            (ground
              (arith, closes-epoll_events fs lfd fd events, closes-epoll_waits fs lfd fd waits))
    ]

-- While `epoll_run` handles any number of waits, a descriptor is closed at most as often as they report it, and the
-- listening socket is never closed.
pub closes-epoll_run :
    (fs : FileSystem) (created added : Bool) (oldfd lfd fd : ℕ) (waits : List (List Event))
    → closes fd (epoll_run fs created added oldfd lfd waits)
      ≤ (if fd == lfd then 0 else reports_in fd waits)
unfolding epoll_run closes aborted epoll_addfd set_nonblocking
closes-epoll_run fs false added oldfd lfd fd waits = omega arith
closes-epoll_run fs true false oldfd lfd fd waits = omega arith
closes-epoll_run fs true true oldfd lfd fd waits = closes-epoll_waits fs lfd fd waits
