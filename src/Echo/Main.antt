-- ===== src/Echo/Main.antt =====
-- main of select_poll_epoll/epoll_server.c and epoll_server2.c: the set-up, and the loop over the calls of epoll_wait.
pub mod Quiet
pub mod Edge
pub mod Level
use linux_api_and_socket_pro.Common.{
  ℕ, zero, suc, ◌+◌, ◌-◌, ◌*◌, ◌/◌, ◌%◌, ◌^◌, ◌≤◌, ◌<◌, min, ◌≡◌, refl, sym, ap, ap₂, subst, ◌∙◌,
  ◌≢◌, ◌↔◌, ◌⊎◌, inl, inr, Bool, true, false, not, ◌&&◌, ◌||◌, Option, none, some, List, [], ◌∷◌,
  ◌++◌, map, append-nil, append_assoc, arith, dec_lt, dec_le, ℕ_discrete, ltb, leb, ◌==◌,
  if◌then◌else◌, ==_iff, ==_refl, ne_test, Bool-cases, Option-cases, codes, length, get_or, set,
  take, drop, replicate, All, length-append, length-set, length-replicate, get_or-set_self,
  get_or-set_ne, take-append-drop, length-take, length-drop, All-append, total, total-nil,
  total-cons, total-append, total-replicate, total-set, total-ge,
}
use linux_api_and_socket_pro.Setup.{Os, epoll_setup, epoll2_setup, Call as SetupCall}
use linux_api_and_socket_pro.Echo.Epoll.{
  buff_size, new_buff, Call, ctl_add, set_nonblocking, write, ctl_del, close, exits, Event, eintr,
  eagain, epoll_addfd, lt_read, lt_turn, exited, lt_loop, lt_work, et_end, et_read, et_turn,
  et_loop, et_work,
}
use linux_api_and_socket_pro.Echo.Drain.{recv_closed, drain, drain_turn, drain_events}

-- The loop with `lt_work` or `et_work`. `none` among the waits is a failed `epoll_wait`, which ends the program as
-- the work may; `none` as the result is an access outside a buffer.
unfoldable pub main_waits :
    (work : List Event → Option (List Call)) → List (Option (List Event)) → Option (List Call)
unfolding exited
main_waits work [] = some []
main_waits work (none ∷ waits) = some (exits ∷ [])
main_waits work (some events ∷ waits) =
    let rest = main_waits work waits in
    elim (work events) [
      | none ↦ none
      | some calls ↦
          if exited calls
          then some calls
          else elim rest [ none ↦ none | some more ↦ some (calls ++ more) ]
    ]

-- `main` after the socket is open, with whether `epoll_create` succeeds
unfoldable pub main_from :
    (work : List Event → Option (List Call)) (lfd : ℕ) (created : Bool)
    → List (Option (List Event))
    → Option (List Call)
unfolding main_waits epoll_addfd
main_from work lfd false waits = some (exits ∷ [])
main_from work lfd true waits = elim (main_waits work waits) [
  | none ↦ none
  | some calls ↦ some (epoll_addfd (some lfd) true ++ calls)
]

-- what is called before the loop, and then
abbrev pub Run : Type 0
Run = List SetupCall × Option (List Call)

-- the run behind a set-up, which ends there if it has given no socket
unfoldable pub run_from : (List SetupCall × Option ℕ) → (from : ℕ → Option (List Call)) → Run
run_from (calls, none) from = (calls, some [])
run_from (calls, some lfd) from = (calls, from lfd)

-- `main` of epoll_server2.c: level mode without arguments, else edge mode
unfoldable pub main2 : (argc : ℕ) → Os → (created : Bool) → List (Option (List Event)) → Run
unfolding epoll2_setup main_from run_from
main2 argc os created waits =
    run_from (epoll2_setup os)
      (λ lfd. main_from (if argc == 1 then lt_work lfd else et_work lfd) lfd created waits)

-- `main` of epoll_server.c
unfoldable pub main1 : (argc : ℕ) → Os → (created : Bool) → List (Option (List Event)) → Run
unfolding epoll_setup main_from run_from
main1 argc os created waits =
    run_from (epoll_setup os)
      (λ lfd. main_from (if argc == 1 then lt_work lfd else drain_events lfd) lfd created waits)
