-- ===== src/Echo/Main/Level.antt =====
-- The whole runs of both epoll servers in level mode.
use linux_api_and_socket_pro.Common.{
  ℕ, ◌≡◌, refl, ap, ◌∙◌, Bool, true, false, Option, none, some, List, [], ◌∷◌, ◌++◌, map,
  if◌then◌else◌, All,
}
use linux_api_and_socket_pro.Echo.Epoll.{
  Call, ctl_add, set_nonblocking, exits, Event, exited, lt_work,
}
use linux_api_and_socket_pro.Echo.Epoll.Level.{IsShort, lt_calls, until_exit, lt_work_lem}
use linux_api_and_socket_pro.Echo.Main.{main_waits, main_from, main2, main1}
use linux_api_and_socket_pro.Echo.Main.Edge.{run_from-some, main_from_lem}
use linux_api_and_socket_pro.Setup.{Os, epoll_setup, epoll2_setup}

-- what a wait leads to, whatever came before it; a failed one ends the program
abbrev pub wait_calls : (lfd : ℕ) → Option (List Event) → List Call
wait_calls lfd none = exits ∷ []
wait_calls lfd (some events) = until_exit (map (lt_calls lfd) events)

-- reads of at most five bytes
abbrev pub IsShortWait : Option (List Event) → Type 0
IsShortWait none = Unit
IsShortWait (some events) = All (λ e. All IsShort e.answers) events

level_waits :
    (lfd : ℕ) (waits : List (Option (List Event)))
    → All IsShortWait waits
    → main_waits (lt_work lfd) waits ≡ some (until_exit (map (wait_calls lfd) waits))
unfolding main_waits exited
level_waits lfd [] short = refl
level_waits lfd (none ∷ waits) short = refl
level_waits lfd (some events ∷ waits) short =
    rw (lt_work_lem lfd events short.0, level_waits lfd waits short.1, main_waits)
      (branches (exited (until_exit (map (lt_calls lfd) events))))
  where
    first : List Call
    first = until_exit (map (lt_calls lfd) events)

    more : List Call
    more = until_exit (map (wait_calls lfd) waits)

    branches :
        (x : Bool)
        → (if x then some first else some (first ++ more))
          ≡ some (if x then first else first ++ more)
    branches true = refl
    branches false = refl

-- Without arguments and when the set-up and `epoll_create` have succeeded, runs of epoll_server2.c and of epoll_server.c
-- are in level mode and are the same: with reads of at most five bytes, in any number of waits and whatever their
-- events, nothing outside a buffer is accessed, and every event leads to its own calls, in order and up to the end of
-- the program: a new client is registered, bytes are sent back in upper case up to the first NUL, a client that has
-- closed its side is closed, and a failed read or wait ends the program.
pub main1-main2_level :
    (lfd : ℕ) (os : Os) (waits : List (Option (List Event)))
    → (epoll2_setup os).1 ≡ some lfd
    → All IsShortWait waits
    → let calls =
        ctl_add lfd true ∷ set_nonblocking lfd ∷ until_exit (map (wait_calls lfd) waits) in
      (main2 1 os true waits ≡ ((epoll2_setup os).0, some calls))
      × (main1 1 os true waits ≡ ((epoll_setup os).0, some calls))
unfolding main1 main2 epoll_setup epoll2_setup
main1-main2_level lfd os waits e short = (
  run_from-some (epoll2_setup os) lfd _ e ∙ ap (λ c. ((epoll2_setup os).0, c)) runs,
  run_from-some (epoll_setup os) lfd _ e ∙ ap (λ c. ((epoll_setup os).0, c)) runs,
)
  where
    runs :
        main_from (lt_work lfd) lfd true waits
        ≡ some (ctl_add lfd true ∷ set_nonblocking lfd ∷ until_exit (map (wait_calls lfd) waits))
    runs =
        main_from_lem (lt_work lfd) (lt_work lfd) lfd waits
          (until_exit (map (wait_calls lfd) waits)) refl (level_waits lfd waits short)
