-- ===== src/Echo/Poll/Tests.antt =====
-- Runs of the server on `poll`, and the theorems at them.
use linux_api_and_socket_pro.Common.{
  ℕ, zero, suc, ◌+◌, ◌≤◌, ◌<◌, ◌≡◌, refl, ◌∙◌, true, false, ◌&&◌, Option, none, some, List, [], ◌∷◌,
  arith, ltb, leb, ◌==◌, if◌then◌else◌, codes, get_or, set, replicate, total, total-cons,
  total-replicate,
}
use linux_api_and_socket_pro.Echo.Buffer.{toupper, bytes, end}
use linux_api_and_socket_pro.Echo.Buffer.Upper.{upper_to_nul, EndsInNul}
use linux_api_and_socket_pro.Echo.Poll.{
  Poll, new_poll, Call, write, is_free, find_free, larger, add_client, poll_round, PollRound,
  poll_rounds,
}
use linux_api_and_socket_pro.Echo.Poll.Slots.{
  IsTable, HasRoom, add_client_lem, add_client_full, get_or-replicate, new_poll-IsTable,
}
use linux_api_and_socket_pro.Echo.Poll.Calls.{calls_from, slot_after}
use linux_api_and_socket_pro.Echo.Poll.Serve.{poll_round_lem}
use linux_api_and_socket_pro.Echo.Poll.Rounds.{in_use, poll_rounds-le}

empty-HasRoom : HasRoom (new_poll 3)
unfolding new_poll
empty-HasRoom = (1, omega arith, omega arith, refl)

add_client_test :
    IsTable 3 (add_client (new_poll 3) (some 4))
    × ((k : ℕ) × (get_or (new_poll 3).client_fds k none ≡ none)
        × ((add_client (new_poll 3) (some 4)).client_fds ≡ set (new_poll 3).client_fds k (some 4))
        × (get_or (add_client (new_poll 3) (some 4)).client_fds k none ≡ some 4))
add_client_test = add_client_lem 3 (new_poll 3) (some 4) (new_poll-IsTable 3) empty-HasRoom

-- every slot is in use
abbrev full_table : Poll
unfolding new_poll
full_table = record (new_poll 3) { client_fds = some 3 ∷ replicate 1023 (some 4); max_fd = 1023 }

full_table-IsTable : IsTable 3 full_table
unfolding new_poll EndsInNul
full_table-IsTable = record {
  size = refl;
  listener = refl;
  in_use = omega arith;
  unused = behind;
  nul = refl;
  room = refl;
}
  where
    past : (n j : ℕ) → n ≤ j → get_or {A = Option ℕ} (replicate n (some 4)) j none ≡ none
    past zero j h = refl
    past (suc n) zero h = absurd (omega arith)
    past (suc n) (suc j) h = past n j (omega arith)

    behind :
        (j : ℕ) → 1023 < j → get_or {A = Option ℕ} (some 3 ∷ replicate 1023 (some 4)) j none ≡ none
    behind zero h = absurd (omega arith)
    behind (suc j) h = past 1023 j (omega arith)

add_client_full_test :
    ((add_client full_table (some 9)).client_fds ≡ full_table.client_fds)
    × ((add_client full_table (some 9)).max_fd ≡ 1024)
unfolding full_table
add_client_full_test = add_client_full 3 full_table (some 9) full_table-IsTable all_used
  where
    all_used : (k : ℕ) → 0 < k → k < 1024 → is_free (get_or full_table.client_fds k none) ≡ false
    all_used zero low high = absurd (omega arith)
    all_used (suc k) low high = rw ((get_or-replicate 1023 k (some 4)).0 (omega arith)) refl

poll_round_example :
    (after : Poll) × (poll_round (λ j. true) (λ j. bytes (codes "hi")) (some 4) (new_poll 3)
      ≡ some (write 4 (codes "HI") ∷ [], after))
    × IsTable 3 after
    × ((j : ℕ)
        → get_or after.client_fds j none ≡ (
            if leb 1 j && ltb j 2
            then slot_after
                (get_or (some 3 ∷ some 4 ∷ replicate 1022 none) j none)
                true
                (bytes (codes "hi"))
            else get_or (some 3 ∷ some 4 ∷ replicate 1022 none) j none))
unfolding new_poll add_client calls_from find_free larger upper_to_nul toupper
poll_round_example =
    poll_round_lem (λ j. true) (λ j. bytes (codes "hi")) (some 4) 3 (new_poll 3)
      (new_poll-IsTable 3) empty-HasRoom (λ j. omega arith)

-- a client connects, sends, and leaves, and then `poll` fails
abbrev poll_run : List PollRound
poll_run =
    record { polls = true; readable = λ j. j == 0; answers = λ j. end; cfd = some 4 }
    ∷ record { polls = true; readable = λ j. j == 1; answers = λ j. bytes (codes "hi"); cfd = none }
    ∷ record { polls = true; readable = λ j. j == 1; answers = λ j. end; cfd = none }
    ∷ record { polls = false; readable = λ j. true; answers = λ j. end; cfd = none }
    ∷ []

one_used : total in_use (new_poll 3).client_fds ≡ 1
unfolding new_poll
one_used =
    total-cons in_use (some 3) (replicate 1023 none)
    ∙ omega (arith, total-replicate in_use 1023 none)

poll_rounds-le_example :
    (calls : List Call) × (after : Poll) × (poll_rounds poll_run (new_poll 3) ≡ some (calls, after))
    × IsTable 3 after
    × (total in_use after.client_fds ≤ total in_use (new_poll 3).client_fds + 4)
poll_rounds-le_example =
    poll_rounds-le poll_run 3 (new_poll 3) (new_poll-IsTable 3)
      ((λ j. omega arith), ((λ j. omega arith), ((λ j. omega arith), ((λ j. omega arith), tt))))
      (omega (arith, one_used))
