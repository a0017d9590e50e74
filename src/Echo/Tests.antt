-- ===== src/Echo/Tests.antt =====
-- Runs of the echo servers, and the theorems at them.
use linux_api_and_socket_pro.Common.{
  ℕ, ◌≡◌, refl, true, false, Option, none, some, List, [], ◌∷◌, ◌++◌, map, arith, ◌==◌, codes, All,
}
use linux_api_and_socket_pro.Echo.Buffer.{toupper, echo, bytes, end, failed}
use linux_api_and_socket_pro.Echo.Buffer.Upper.{upper_to_nul, echo_overrun}
use linux_api_and_socket_pro.Echo.Epoll.{
  Event, lt_work, et_work, exited, epoll_addfd, exits, ctl_del, write as epoll_write,
  close as epoll_close, Call as EpollCall, ctl_add, set_nonblocking,
}
use linux_api_and_socket_pro.Echo.Drain.{drain_events as drain_all}
use linux_api_and_socket_pro.Echo.Drain.Twice.{drain_events_lem}
use linux_api_and_socket_pro.Echo.Epoll.Level.{lt_work_lem}
use linux_api_and_socket_pro.Echo.Epoll.Edge.{Client, event_of, et_last, et_work_lem}
use linux_api_and_socket_pro.Echo.Poll.{write, close}
use linux_api_and_socket_pro.Echo.Same.{all_written}
use linux_api_and_socket_pro.Setup.{
  Os, socket, reuse_address, bind, listen, exits, epoll_setup, epoll2_setup, mtlt_setup,
}
use linux_api_and_socket_pro.Echo.Main.{main2, main1}
use linux_api_and_socket_pro.Echo.Main.Edge.{waits_of, main2_lem, main1-main2}
use linux_api_and_socket_pro.Echo.Main.Level.{main1-main2_level}
use linux_api_and_socket_pro.Echo.Modes.{mtlt_main}
use linux_api_and_socket_pro.Echo.Modes.Streams.{sent_to, received_in, mtlt_main_lem}
use linux_api_and_socket_pro.Echo.Select.{Select, Round, select_rounds}
use linux_api_and_socket_pro.Echo.Select.Rounds.{
  IsSound, fd_calls, answered, members_at_end, IsFair,
}
use linux_api_and_socket_pro.Echo.Select.Accept.{Holds, started, new_select-IsSound}
use linux_api_and_socket_pro.Echo.Select.Refines.{select_rounds_lem}

-- what a longer message has left behind
abbrev old_buff : List ℕ
old_buff = codes "HELLO" ++ (0 ∷ [])

echo_overrun_test : echo old_buff (codes "sixsix") ≡ none
echo_overrun_test = echo_overrun old_buff (codes "sixsix") refl (omega arith)

-- a new client, a client that sends, and one that fails; the last event is not reached
abbrev events : List Event
events =
    record { fd = 3; readable = true; accepted = some 7; answers = [] }
    ∷ record { fd = 5; readable = true; accepted = none; answers = bytes (codes "hi") ∷ [] }
    ∷ record { fd = 6; readable = true; accepted = none; answers = failed 9 ∷ [] }
    ∷ record { fd = 5; readable = true; accepted = none; answers = end ∷ [] }
    ∷ []

lt_work_test :
    lt_work 3 events
    ≡ some (ctl_add 7 false ∷ set_nonblocking 7 ∷ epoll_write 5 (codes "HI") ∷ exits ∷ [])
unfolding upper_to_nul toupper exited epoll_addfd
lt_work_test = lt_work_lem 3 events (omega arith)

-- one client that closes, and one that has sent all
abbrev clients : List Client
clients =
    record { fd = 5; chunks = codes "hello" ∷ codes "!" ∷ []; last = end }
    ∷ record { fd = 6; chunks = []; last = failed 11 }
    ∷ []

et_work_test :
    et_work 3 (map event_of clients)
    ≡ some
        (epoll_write 5 (codes "HELLO") ∷ epoll_write 5 (codes "!") ∷ ctl_del 5 ∷ epoll_close 5 ∷ [])
unfolding toupper et_last
et_work_test = et_work_lem 3 clients (omega arith)

drain_events_test :
    drain_all 3 (map event_of clients)
    ≡ some (
        epoll_write 5 (codes "HELLO")
        ∷ epoll_write 5 (codes "!")
        ∷ epoll_close 5
        ∷ epoll_close 5
        ∷ [])
unfolding toupper
drain_events_test = drain_events_lem 3 clients (omega arith)

-- nothing fails
abbrev os_ok : Os
os_ok = record { socket = some 3; binds = true; listens = true }

-- two waits
abbrev two_waits : List (List Client)
two_waits = clients ∷ (record { fd = 6; chunks = codes "a" ∷ []; last = end } ∷ []) ∷ []

main2_example : main2 2 os_ok true (waits_of two_waits) ≡ (
  socket ∷ reuse_address 3 ∷ bind (some 3) 9999 ∷ listen 3 5 ∷ [],
  some (
      ctl_add 3 true
      ∷ set_nonblocking 3
      ∷ epoll_write 5 (codes "HELLO")
      ∷ epoll_write 5 (codes "!")
      ∷ ctl_del 5
      ∷ epoll_close 5
      ∷ epoll_write 6 (codes "A")
      ∷ ctl_del 6
      ∷ epoll_close 6
      ∷ []),
)
unfolding toupper et_last epoll2_setup
main2_example = main2_lem 2 3 os_ok two_waits (omega arith) refl (omega arith)

main1-main2_example :
    ((main1 2 os_ok true (waits_of two_waits)).0 ≡ (main2 2 os_ok true (waits_of two_waits)).0)
    × (all_written (main1 2 os_ok true (waits_of two_waits)).1
        ≡ all_written (main2 2 os_ok true (waits_of two_waits)).1)
unfolding epoll_setup
main1-main2_example = main1-main2 2 3 os_ok two_waits (omega arith) refl (omega arith)

-- in level mode a failed read ends the program, and the second wait is not made
main1-main2_level_example :
    let calls =
      ctl_add 3 true
      ∷ set_nonblocking 3
      ∷ ctl_add 7 false
      ∷ set_nonblocking 7
      ∷ epoll_write 5 (codes "HI")
      ∷ exits
      ∷ [] in
    (main2 1 os_ok true (some events ∷ some events ∷ []) ≡ ((epoll2_setup os_ok).0, some calls))
    × (main1 1 os_ok true (some events ∷ some events ∷ []) ≡ ((epoll_setup os_ok).0, some calls))
unfolding upper_to_nul toupper exited epoll_addfd epoll2_setup
main1-main2_level_example =
    main1-main2_level 3 os_ok (some events ∷ some events ∷ []) refl (omega arith, (omega arith, tt))

-- more than nine bytes, one of them NUL, and a failed wait
abbrev raw_waits : List (Option (List Event))
raw_waits =
    some (
      record {
        fd = 5;
        readable = true;
        accepted = none;
        answers = bytes (codes "a" ++ (0 ∷ [])) ∷ bytes (codes "b") ∷ end ∷ [];
      }
      ∷ [])
    ∷ none
    ∷ []

mtlt_main_example :
    (calls : List EpollCall) × ((mtlt_main 3 8000 os_ok true raw_waits).1 ≡ some calls)
    × ((fd : ℕ) → sent_to fd calls ≡ received_in fd 3 raw_waits)
unfolding mtlt_setup
mtlt_main_example = mtlt_main_lem 3 8000 3 os_ok raw_waits refl

raw_test : received_in 5 3 raw_waits ≡ codes "a" ++ (0 ∷ codes "b")
raw_test = refl

-- a client connects, is answered, and closes its side
abbrev rounds : List Round
rounds =
    record { ready = λ j. true; answers = λ j. end; cfd = some 4 }
    ∷ record { ready = λ j. j == 4; answers = λ j. bytes (codes "hi"); cfd = none }
    ∷ record { ready = λ j. j == 4; answers = λ j. end; cfd = none }
    ∷ []

rounds-IsFair : All (IsFair 3) rounds
rounds-IsFair = (
  record { short = λ j. omega arith; fits = λ e. (4, refl, omega arith) },
  (
    record { short = λ j. omega arith; fits = λ e. absurd (unequal e) },
    (record { short = λ j. omega arith; fits = λ e. absurd (unequal e) }, tt),
  ),
)
  where
    unequal : false ≡ true → ⊥
    unequal e = cc

select_rounds_example :
    (q : Select) × (select_rounds 3 rounds (started 3) ≡ some (answered 3 rounds (λ j. j == 3), q))
    × IsSound 3 q
    × Holds q (members_at_end 3 rounds (λ j. j == 3))
select_rounds_example =
    select_rounds_lem 3 rounds (started 3) (λ j. j == 3) (new_select-IsSound 3 (omega arith)).1.0
      (new_select-IsSound 3 (omega arith)).1.1 rounds-IsFair

answered_test : answered 3 rounds (λ j. j == 3) ≡ write 4 (codes "HI") ∷ close 4 ∷ []
unfolding answered fd_calls upper_to_nul toupper
answered_test = refl
