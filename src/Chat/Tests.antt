-- ===== src/Chat/Tests.antt =====
-- Runs of the chat server and its clients, and the theorems at them.
use linux_api_and_socket_pro.Common.{ℕ, ◌≡◌, refl, true, some, List, [], ◌∷◌, arith, codes}
use linux_api_and_socket_pro.Chat.Room.{empty_room, message_text, Send, broadcast, main_turn}
use linux_api_and_socket_pro.Http.Bytes.{decimal_from, decimal}
use linux_api_and_socket_pro.Chat.Client.{filled, send_line, print_loop}
use linux_api_and_socket_pro.Chat.Client.Delivery.{arriving, IsLine, print_loop-broadcast}
use linux_api_and_socket_pro.Chat.Room.Joins.{join_all, sends, broadcast-join_all}

abbrev message_of : ℕ → Send
message_of g = record { to = g; text = message_text 5 (codes "hi") }

broadcast-join_all_test :
    broadcast 5 (codes "hi") (join_all (4 ∷ 5 ∷ 6 ∷ []) empty_room)
    ≡ some (message_of 4 ∷ message_of 6 ∷ message_of 0 ∷ [])
unfolding sends
broadcast-join_all_test =
    broadcast-join_all (4 ∷ 5 ∷ 6 ∷ []) 5 (codes "hi") (omega arith) (omega arith) (λ e. cc)

hi-IsLine : IsLine 5 (codes "hi")
unfolding decimal decimal_from
hi-IsLine = record { no_nul = omega arith; short = omega arith }

print_loop-broadcast_example :
    ((main_turn 5 (join_all (4 ∷ []) empty_room)).1 ≡ true)
    × ((calls : List Send) × (broadcast 5
            (filled (send_line (codes "hi")))
            (join_all (4 ∷ 5 ∷ 6 ∷ []) empty_room)
          ≡ some calls)
        × (print_loop (arriving 6 calls) ≡ some (codes "fd=5:hi" ∷ [])))
unfolding decimal decimal_from
print_loop-broadcast_example =
    print_loop-broadcast 5 6 (4 ∷ 5 ∷ []) [] (4 ∷ []) (6 ∷ []) (codes "hi") refl (omega arith)
      (omega arith) tt (omega arith) (omega arith) (omega arith) (omega arith) hi-IsLine
