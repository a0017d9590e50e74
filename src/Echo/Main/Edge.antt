-- ===== src/Echo/Main/Edge.antt =====
-- The whole runs of both epoll servers in edge mode.
use linux_api_and_socket_pro.Common.{
  ℕ, ◌≡◌, refl, sym, ap, ap₂, subst, ◌∙◌, ◌≢◌, true, false, Option, some, List, [], ◌∷◌, ◌++◌, map,
  ◌==◌, if◌then◌else◌, ne_test, All,
}
use linux_api_and_socket_pro.Setup.{Os, epoll_setup, epoll2_setup, Call as SetupCall}
use linux_api_and_socket_pro.Echo.Drain.{drain_events}
use linux_api_and_socket_pro.Echo.Epoll.{
  Call, ctl_add, set_nonblocking, Event, epoll_addfd, exited, lt_work, et_work,
}
use linux_api_and_socket_pro.Echo.Epoll.Edge.{
  Client, event_of, IsLast, IsChunk, concat_calls, et_work_lem,
}
use linux_api_and_socket_pro.Echo.Drain.Twice.{drain_events_lem}
use linux_api_and_socket_pro.Echo.Main.{main_waits, main_from, run_from, main2, main1}
use linux_api_and_socket_pro.Echo.Same.{written, all_written, written-append, same_clients}
use linux_api_and_socket_pro.Echo.Main.Quiet.{edge_calls, drained, exited-calls}

-- the clients of each wait, who are all known
abbrev pub waits_of : List (List Client) → List (Option (List Event))
waits_of waits = map (λ clients. some (map event_of clients)) waits

-- clients with reads of at most five bytes and no NUL
abbrev pub IsKnown : (lfd : ℕ) → List Client → Type 0
IsKnown lfd clients = All (λ c. (c.fd ≢ lfd) × (All IsChunk c.chunks × IsLast c.last)) clients

main_waits_lem :
    (work : List Event → Option (List Call)) (calls_of : List Client → List Call)
    (waits : List (List Client))
    → All
        (λ clients.
          (work (map event_of clients) ≡ some (calls_of clients))
          × (exited (calls_of clients) ≡ false))
        waits
    → main_waits work (waits_of waits) ≡ some (concat_calls (map calls_of waits))
unfolding main_waits
main_waits_lem work calls_of [] ok = refl
main_waits_lem work calls_of (clients ∷ waits) ok =
    rw (ok.0.0, ok.0.1, main_waits_lem work calls_of waits ok.1, main_waits) refl

pub run_from-some :
    (r : List SetupCall × Option ℕ) (lfd : ℕ) (from : ℕ → Option (List Call))
    → r.1 ≡ some lfd
    → run_from r from ≡ (r.0, from lfd)
unfolding run_from
run_from-some r lfd from e = by_result r.0 r.1 e
  where
    by_result :
        (calls : List SetupCall) (fd : Option ℕ)
        → fd ≡ some lfd
        → run_from (calls, fd) from ≡ (calls, from lfd)
    by_result calls fd e = rw e refl

two_modes :
    (argc : ℕ) (level edge : List Event → Option (List Call))
    → argc ≢ 1
    → (if argc == 1 then level else edge) ≡ edge
two_modes argc level edge ne = rw (ne_test argc 1 ne) refl

pub main_from_lem :
    (work edge : List Event → Option (List Call)) (lfd : ℕ) (waits : List (Option (List Event)))
    (calls : List Call)
    → work ≡ edge
    → main_waits edge waits ≡ some calls
    → main_from work lfd true waits ≡ some (ctl_add lfd true ∷ set_nonblocking lfd ∷ calls)
unfolding main_from epoll_addfd
main_from_lem work edge lfd waits calls e runs =
    subst (λ w. main_from w lfd true waits ≡ some (ctl_add lfd true ∷ set_nonblocking lfd ∷ calls))
      (sym e) (rw (runs, main_from) refl)

edge_waits :
    (lfd : ℕ) (waits : List (List Client))
    → All (IsKnown lfd) waits
    → (main_waits (et_work lfd) (waits_of waits) ≡ some (concat_calls (map edge_calls waits)))
      × (main_waits (drain_events lfd) (waits_of waits) ≡ some (concat_calls (map drained waits)))
edge_waits lfd waits fair = (
  main_waits_lem (et_work lfd) edge_calls waits (edge waits fair),
  main_waits_lem (drain_events lfd) drained waits (drain waits fair),
)
  where
    edge :
        (waits : List (List Client))
        → All (IsKnown lfd) waits
        → All
            (λ clients.
              (et_work lfd (map event_of clients) ≡ some (edge_calls clients))
              × (exited (edge_calls clients) ≡ false))
            waits
    edge [] fair = tt
    edge (clients ∷ waits) fair =
        ((et_work_lem lfd clients fair.0, (exited-calls clients).0), edge waits fair.1)

    drain :
        (waits : List (List Client))
        → All (IsKnown lfd) waits
        → All
            (λ clients.
              (drain_events lfd (map event_of clients) ≡ some (drained clients))
              × (exited (drained clients) ≡ false))
            waits
    drain [] fair = tt
    drain (clients ∷ waits) fair =
        ((drain_events_lem lfd clients fair.0, (exited-calls clients).1), drain waits fair.1)

-- A run of epoll_server2.c with an argument, when its set-up and `epoll_create` have succeeded: in any number of waits,
-- whose clients are known and send at most five bytes at a time and no NUL, it registers its socket, and then writes
-- each chunk back in upper case, in order, and closes a client that has closed its side, or whose read has failed with an
-- error other than those after which it may be read again, and no other client.
pub main2_lem :
    (argc lfd : ℕ) (os : Os) (waits : List (List Client))
    → argc ≢ 1
    → (epoll2_setup os).1 ≡ some lfd
    → All (IsKnown lfd) waits
    → main2 argc os true (waits_of waits) ≡ (
      (epoll2_setup os).0,
      some (ctl_add lfd true ∷ set_nonblocking lfd ∷ concat_calls (map edge_calls waits)),
    )
unfolding main2
main2_lem argc lfd os waits ne e fair =
    run_from-some (epoll2_setup os) lfd _ e
    ∙ ap (λ c. ((epoll2_setup os).0, c))
        (main_from_lem (if argc == 1 then lt_work lfd else et_work lfd) (et_work lfd) lfd
          (waits_of waits) (concat_calls (map edge_calls waits))
          (two_modes argc (lt_work lfd) (et_work lfd) ne) (edge_waits lfd waits fair).0)

pub main1_lem :
    (argc lfd : ℕ) (os : Os) (waits : List (List Client))
    → argc ≢ 1
    → (epoll_setup os).1 ≡ some lfd
    → All (IsKnown lfd) waits
    → main1 argc os true (waits_of waits) ≡ (
      (epoll_setup os).0,
      some (ctl_add lfd true ∷ set_nonblocking lfd ∷ concat_calls (map drained waits)),
    )
unfolding main1
main1_lem argc lfd os waits ne e fair =
    run_from-some (epoll_setup os) lfd _ e
    ∙ ap (λ c. ((epoll_setup os).0, c))
        (main_from_lem (if argc == 1 then lt_work lfd else drain_events lfd) (drain_events lfd) lfd
          (waits_of waits) (concat_calls (map drained waits))
          (two_modes argc (lt_work lfd) (drain_events lfd) ne) (edge_waits lfd waits fair).1)

written-drained :
    (waits : List (List Client))
    → written (concat_calls (map edge_calls waits)) ≡ written (concat_calls (map drained waits))
written-drained [] = refl
written-drained (clients ∷ waits) =
    written-append (edge_calls clients) _
    ∙ ap₂ ◌++◌ (same_clients clients) (written-drained waits)
    ∙ sym (written-append (drained clients) _)

-- With an argument, when the set-up and `epoll_create` have succeeded, runs of epoll_server.c and of epoll_server2.c make
-- the same calls before their loops, and write the same bytes to the same descriptors in the same order, in any
-- number of waits whose clients are known and send at most five bytes at a time and no NUL.
pub main1-main2 :
    (argc lfd : ℕ) (os : Os) (waits : List (List Client))
    → argc ≢ 1
    → (epoll_setup os).1 ≡ some lfd
    → All (IsKnown lfd) waits
    → ((main1 argc os true (waits_of waits)).0 ≡ (main2 argc os true (waits_of waits)).0)
      × (all_written (main1 argc os true (waits_of waits)).1
          ≡ all_written (main2 argc os true (waits_of waits)).1)
unfolding epoll_setup epoll2_setup
main1-main2 argc lfd os waits ne e fair =
    rw (main1_lem argc lfd os waits ne e fair, main2_lem argc lfd os waits ne e fair)
      (refl, ap some (sym (written-drained waits)))
