-- ===== src/Clients/Tests.antt =====
-- Runs of the servers of tcp_code, and the theorems at them.
use linux_api_and_socket_pro.Echo.Buffer.{toupper, bytes, end}
use linux_api_and_socket_pro.Clients.Session.{worker_loop as loop_of_worker}
use linux_api_and_socket_pro.Clients.Session.Replies.{worker_loop_lem}
use linux_api_and_socket_pro.Common.{
  ℕ, ◌+◌, ◌≤◌, ◌<◌, ◌≡◌, refl, ◌≢◌, ◌⊎◌, true, false, none, some, List, [], ◌∷◌, arith, codes,
  get_or, replicate, All, total,
}
use linux_api_and_socket_pro.Clients.Users.{
  testing, accepting, serving, Server, start, find_slot, choose, accept, create, load_user, count,
  Reach, here, next,
}
use linux_api_and_socket_pro.Clients.Users.Inv.{AreApart}
use linux_api_and_socket_pro.Clients.Users.Room.{room_for_client}
use linux_api_and_socket_pro.Clients.Fork.{closes_and_exits, child_loop}
use linux_api_and_socket_pro.Clients.Fork.Child.{
  but_last, padded, IsMessage, replies, child_loop_lem,
}
use linux_api_and_socket_pro.Http.Bytes.{str_eq}
use linux_api_and_socket_pro.Clients.Client.{client_loop, worker_peer, child_peer}
use linux_api_and_socket_pro.Clients.Client.Session.{IsTyped}
use linux_api_and_socket_pro.Clients.Client.Peers.{client_loop_lem}
use linux_api_and_socket_pro.Clients.Parent.{
  Process, start as start_parent, Reach as ReachParent, here as here_parent, next as next_parent,
  accept as accept_client, count as count_client, fork, unblock, child_ends, recycle_child,
  accepting as accepting_parent, gone as gone_parent,
}
use linux_api_and_socket_pro.Clients.Parent.{Process, recycle_child, fork, unblock, child_ends}
use linux_api_and_socket_pro.Clients.Parent.Reaped.{user_covers, caught_at, recycle_child_reaps}
use linux_api_and_socket_pro.Clients.Parent.Drift.{user_drifts}

-- one client is served, and `main` waits for the next in the second slot
abbrev second : Server
second = record {
  user_sock = some 4 ∷ replicate 20 none;
  raised = 1;
  lowered = 0;
  main = accepting 1;
  workers = serving 0 ∷ [];
}

-- the same, one test earlier
abbrev first : Server
first = record second { main = testing }

first-Reach : Reach start first
unfolding start find_slot
first-Reach =
    next
      (next (next (next (next here (choose refl (λ e. cc))) (accept 0 4 refl)) (create 0 refl))
        (load_user refl))
      (count 0 0 refl)

second-Reach : Reach start second
unfolding find_slot
second-Reach = next first-Reach (choose refl (λ e. cc))

second-AreApart : AreApart second-Reach
unfolding second-Reach first-Reach start find_slot total
second-AreApart = omega arith

room_for_client_example : (1 < 21) × (get_or second.user_sock 1 none ≡ none)
room_for_client_example = room_for_client 1 second-Reach second-AreApart refl

worker_loop_test :
    loop_of_worker (bytes (codes "hi\n") ∷ bytes (codes "a\n") ∷ end ∷ [])
    ≡ some ((b'H' ∷ b'I' ∷ 0 ∷ []) ∷ (b'A' ∷ 0 ∷ []) ∷ [])
unfolding toupper
worker_loop_test =
    worker_loop_lem
      (record { body = codes "hi"; last = 10 } ∷ record { body = codes "a"; last = 10 } ∷ []) end
      (omega arith) tt

-- a long message, then a short one
abbrev inputs : List (List ℕ)
inputs = codes "hello\n" ∷ codes "a\n" ∷ []

inputs-IsMessage : All IsMessage inputs
inputs-IsMessage = (
  record { no_nul = omega arith; low = omega arith; high = omega arith },
  (record { no_nul = omega arith; low = omega arith; high = omega arith }, tt),
)

child_loop_example :
    child_loop (padded []) (bytes (codes "hello\n") ∷ bytes (codes "a\n") ∷ end ∷ [])
    ≡ some (padded (codes "HELLO") ∷ padded (codes "A\nLL") ∷ [], closes_and_exits)
unfolding replies but_last toupper
child_loop_example =
    child_loop_lem [] inputs end (record { no_nul = tt; short = omega arith }) inputs-IsMessage tt

-- two clients are served, and one of them has left
abbrev one_left : Process
one_left = record start_parent {
  user = 2;
  running = 1;
  zombies = 1;
  pending = true;
  blocked = false;
  handled = true;
}

one_left-Reach : ReachParent start_parent one_left
unfolding start_parent
one_left-Reach =
    next_parent
      (next_parent
        (next_parent
          (next_parent
            (next_parent
              (next_parent
                (next_parent
                  (next_parent (next_parent here_parent (accept_client refl refl))
                    (count_client 0 refl refl (omega arith)))
                  (fork refl refl))
                (unblock refl refl))
              (accept_client refl refl))
            (count_client 1 refl refl (omega arith)))
          (fork refl refl))
        (unblock refl refl))
      (child_ends 1 refl)

user_covers_example :
    (one_left.running + one_left.zombies ≤ one_left.user)
    × (((one_left.pending ≡ true) ⊎ ((one_left.in_handler ≡ true) ⊎ (one_left.zombies ≡ 0)))
        × ((one_left.blocked ≡ true) ⊎ (one_left.handled ≡ true)))
user_covers_example = user_covers one_left-Reach

accepting-alive : accepting_parent ≢ gone_parent
accepting-alive e = cc

-- after the handler
abbrev waited_for : Process
waited_for = recycle_child 1 (caught_at one_left)

recycle_child_reaps_example :
    ReachParent one_left waited_for
    × ((waited_for.user + 1 ≡ 2)
        × ((waited_for.zombies ≡ 0)
            × ((waited_for.running ≡ 1)
                × ((waited_for.main ≡ accepting_parent) × (waited_for.in_handler ≡ false)))))
unfolding start_parent
recycle_child_reaps_example = recycle_child_reaps one_left-Reach accepting-alive refl refl refl

user_drifts_example :
    (p : Process) × ReachParent start_parent p
    × ((p.running ≡ 0) × ((p.zombies ≡ 0) × (p.user ≡ 2)))
user_drifts_example = user_drifts 2 (omega arith)

-- two lines, the second shorter
abbrev two_lines : List (List ℕ)
two_lines = codes "hello" ∷ codes "a" ∷ []

two_lines-IsTyped : All IsTyped two_lines
unfolding str_eq
two_lines-IsTyped = (
  record { no_nul = omega arith; short = omega arith; stays = refl },
  (record { no_nul = omega arith; short = omega arith; stays = refl }, tt),
)

client_loop_example :
    let lines = codes "hello\n" ∷ codes "a\n" ∷ codes "qqq\n" ∷ codes "not read\n" ∷ [] in
    (client_loop worker_peer tt lines ≡ some (codes "HELLO" ∷ codes "A" ∷ []))
    × (client_loop child_peer (padded []) lines ≡ some (codes "HELLO" ∷ codes "A" ∷ []))
unfolding toupper
client_loop_example =
    client_loop_lem two_lines (codes "not read\n" ∷ []) (padded []) two_lines-IsTyped
