-- ===== src/Chat/Room/Joins.antt =====
-- Who gets a message after clients have joined.
use linux_api_and_socket_pro.Common.{
  ℕ, suc, ◌+◌, ◌-◌, ◌<◌, ◌≡◌, refl, sym, ap, ap₂, ◌∙◌, ◌≢◌, Bool, true, false, some, List, [], ◌∷◌,
  ◌++◌, append-nil, append_assoc, arith, ltb, ◌==◌, if◌then◌else◌, ne_test, length, replicate, All,
  length-append, All-append,
}
use linux_api_and_socket_pro.Chat.Room.{
  size, Room, empty_room, replace, join, message_text, Send, send_loop, broadcast, main_turn,
}

-- one client after the other
unfoldable pub join_all : List ℕ → Room → Room
join_all [] r = r
join_all (c ∷ clients) r = join_all clients (join c r)

-- a message to each of these but the sender
unfoldable pub sends : (fd : ℕ) (text : List ℕ) → List ℕ → List Send
sends fd text [] = []
sends fd text (g ∷ gs) =
    let rest = sends fd text gs in if g == fd then rest else record { to = g; text = text } ∷ rest

replace-append :
    (clients : List ℕ) (free new : ℕ)
    → All (λ c. c ≢ 0) clients
    → replace 0 new (clients ++ (0 ∷ replicate free 0)) ≡ some (clients ++ (new ∷ replicate free 0))
unfolding replace
replace-append [] free new h = refl
replace-append (c ∷ clients) free new h =
    rw (ne_test c 0 h.0, replace-append clients free new h.1) refl

-- the room that so many clients make
abbrev room_of : List ℕ → ℕ → Room
room_of clients free = record { fds = clients ++ replicate free 0; user = length clients }

join_lem :
    (clients : List ℕ) (free new : ℕ)
    → All (λ c. c ≢ 0) clients
    → join new (room_of clients (suc free)) ≡ room_of (clients ++ (new ∷ [])) free
unfolding join
join_lem clients free new h =
    rw (replace-append clients free new h, join)
      (ap₂ (λ l n. record { fds = l; user = n })
        (sym (append_assoc clients (new ∷ []) (replicate free 0)))
        (omega (arith, length-append clients (new ∷ []))))

join_all_lem :
    (before clients : List ℕ) (free : ℕ)
    → All (λ c. c ≢ 0) before
    → All (λ c. c ≢ 0) clients
    → join_all clients (room_of before (length clients + free)) ≡ room_of (before ++ clients) free
unfolding join_all
join_all_lem before [] free hb hc =
    ap (room_of before) (omega arith) ∙ ap (λ l. room_of l free) (sym (append-nil before))
join_all_lem before (c ∷ clients) free hb hc =
    ap (λ n. join_all clients (join c (room_of before n))) {y = suc (length clients + free)}
      (omega arith)
    ∙ ap (join_all clients) (join_lem before (length clients + free) c hb)
    ∙ join_all_lem (before ++ (c ∷ [])) clients free
        (All-append (λ d. d ≢ 0) before (c ∷ []) hb (hc.0, tt)) hc.1
    ∙ ap (λ l. room_of l free) (append_assoc before (c ∷ []) clients)

-- After fewer than 18 clients the next one gets a thread.
pub main_turn-join_all :
    (clients : List ℕ) (new : ℕ)
    → All (λ c. c ≢ 0) clients
    → length clients < 18
    → (main_turn new (join_all clients empty_room)).1 ≡ true
unfolding main_turn empty_room
main_turn-join_all clients new h few =
    ap (λ r. ltb (join new r).user 19) joined
    ∙ ap (λ r. ltb r.user 19) (join_lem clients (19 - length clients) new h)
    ∙ below (length (clients ++ (new ∷ []))) (omega (arith, length-append clients (new ∷ [])))
  where
    joined : join_all clients empty_room ≡ room_of clients (suc (19 - length clients))
    joined =
        ap (λ n. join_all clients (room_of [] n)) {x = size}
          {y = length clients + suc (19 - length clients)} (omega arith)
        ∙ join_all_lem [] clients (suc (19 - length clients)) tt h

    below : (n : ℕ) → n < 19 → ltb n 19 ≡ true
    below n lt = ground arith

send_loop_lem :
    (fd : ℕ) (text clients more : List ℕ)
    → fd ≢ 0
    → send_loop fd text (suc (length clients)) (clients ++ (0 ∷ more))
      ≡ some (sends fd text clients ++ (record { to = 0; text = text } ∷ []))
unfolding send_loop sends
send_loop_lem fd text [] more h = rw (ne_test 0 fd (λ e. h (sym e))) refl
send_loop_lem fd text (g ∷ clients) more h =
    rw (send_loop_lem fd text clients more h, send_loop) (by_test (g == fd))
  where
    by_test :
        (b : Bool)
        → some (
            if b
            then sends fd text clients ++ (record { to = 0; text = text } ∷ [])
            else record { to = g; text = text }
              ∷ (sends fd text clients ++ (record { to = 0; text = text } ∷ [])))
          ≡ some (
              (if b
                then sends fd text clients
                else record { to = g; text = text } ∷ sends fd text clients)
              ++ (record { to = 0; text = text } ∷ []))
    by_test true = refl
    by_test false = refl

-- At most 19 clients join an empty room, none of them with descriptor 0, and none leaves. A message of one is sent
-- once to each other client, in the order in which they joined, and then to descriptor 0, which is no client.
pub broadcast-join_all :
    (clients : List ℕ) (fd : ℕ) (recvbuf : List ℕ)
    → All (λ c. c ≢ 0) clients
    → length clients < size
    → fd ≢ 0
    → broadcast fd recvbuf (join_all clients empty_room)
      ≡ some (
          sends fd (message_text fd recvbuf) clients
          ++ (record { to = 0; text = message_text fd recvbuf } ∷ []))
unfolding broadcast empty_room
broadcast-join_all clients fd recvbuf h room ne =
    ap (λ r. broadcast fd recvbuf r) joined
    ∙ send_loop_lem fd (message_text fd recvbuf) clients (replicate (size - length clients - 1) 0)
        ne
  where
    joined : join_all clients empty_room ≡ room_of clients (suc (size - length clients - 1))
    joined =
        ap (λ n. join_all clients (room_of [] n)) {x = size}
          {y = length clients + suc (size - length clients - 1)} (omega arith)
        ∙ join_all_lem [] clients (suc (size - length clients - 1)) tt h
