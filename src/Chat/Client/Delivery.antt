-- ===== src/Chat/Client/Delivery.antt =====
-- What is typed at one client of the chat is printed at the others.
use linux_api_and_socket_pro.Common.{
  ℕ, suc, ◌+◌, ◌-◌, ◌<◌, ◌≡◌, refl, sym, ap, ap₂, subst, ◌∙◌, ◌≢◌, true, some, List, [], ◌∷◌, ◌++◌,
  arith, ℕ_discrete, ltb, ◌==◌, if◌then◌else◌, ==_refl, ne_test, codes, length, replicate, All,
  length-append, All-append,
}
use linux_api_and_socket_pro.Echo.Buffer.{Answer, bytes}
use linux_api_and_socket_pro.Http.Bytes.{cstr, decimal, cstr-nul}
use linux_api_and_socket_pro.Chat.Room.{empty_room, message_text, Send, broadcast, main_turn}
use linux_api_and_socket_pro.Chat.Room.Joins.{
  join_all, sends, main_turn-join_all, broadcast-join_all,
}
use linux_api_and_socket_pro.Chat.Client.{filled, send_line, print_loop}

-- what comes to `fd`, one answer for each call of `send`
unfoldable pub arriving : (fd : ℕ) → List Send → List Answer
arriving fd [] = []
arriving fd (s ∷ calls) =
    let rest = arriving fd calls in if s.to == fd then bytes s.text ∷ rest else rest

-- a line of characters other than NUL that fits the buffers, also behind the name of its sender
pub record IsLine (fd : ℕ) (line : List ℕ) : Type 0 where
  pub no_nul : All (λ c. c ≢ 0) (codes "fd=" ++ (decimal fd ++ (codes ":" ++ line)))
  pub short : length (codes "fd=" ++ (decimal fd ++ (codes ":" ++ line))) < 512

abbrev pub named : (fd : ℕ) (line : List ℕ) → List ℕ
named fd line = codes "fd=" ++ (decimal fd ++ (codes ":" ++ line))

cstr-filled : (d : List ℕ) → All (λ c. c ≢ 0) d → length d < 512 → cstr (filled d) ≡ d
unfolding filled
cstr-filled d h short =
    ap (λ n. cstr (d ++ replicate n 0)) {x = 512 - length d} {y = suc (511 - length d)}
      (omega (arith, short))
    ∙ cstr-nul d (replicate (511 - length d) 0) h

arriving-append :
    (fd : ℕ) (xs ys : List Send) → arriving fd (xs ++ ys) ≡ arriving fd xs ++ arriving fd ys
unfolding arriving
arriving-append fd [] ys = refl
arriving-append fd (s ∷ xs) ys = elim (ℕ_discrete s.to fd) [
  | yes e ↦ rw (e, ==_refl fd, arriving-append fd xs ys) refl
  | no ne ↦ rw (ne_test s.to fd ne, arriving-append fd xs ys) refl
]

-- nothing comes to one who is not among them
arriving-none :
    (fd sender : ℕ) (text clients : List ℕ)
    → All (λ c. c ≢ fd) clients
    → arriving fd (sends sender text clients) ≡ []
unfolding arriving sends
arriving-none fd sender text [] h = refl
arriving-none fd sender text (g ∷ clients) h = elim (ℕ_discrete g sender) [
  | yes e ↦ rw (e, ==_refl sender) (arriving-none fd sender text clients h.1)
  | no ne ↦ rw (ne_test g sender ne, ne_test g fd h.0) (arriving-none fd sender text clients h.1)
]

-- one message comes to one who is
arriving-one :
    (fd sender : ℕ) (text before after : List ℕ)
    → fd ≢ sender
    → All (λ c. c ≢ fd) before
    → All (λ c. c ≢ fd) after
    → arriving fd (sends sender text (before ++ (fd ∷ after))) ≡ bytes text ∷ []
unfolding arriving sends
arriving-one fd sender text [] after ne hb ha =
    rw (ne_test fd sender ne, ==_refl fd, arriving-none fd sender text after ha) refl
arriving-one fd sender text (g ∷ before) after ne hb ha = elim (ℕ_discrete g sender) [
  | yes e ↦ rw (e, ==_refl sender) (arriving-one fd sender text before after ne hb.1 ha)
  | no other ↦
      rw (ne_test g sender other, ne_test g fd hb.0)
        (arriving-one fd sender text before after ne hb.1 ha)
]

All-right : (xs ys : List ℕ) → All (λ c. c ≢ 0) (xs ++ ys) → All (λ c. c ≢ 0) ys
All-right [] ys h = h
All-right (x ∷ xs) ys h = All-right xs ys h.1

All-left : (xs ys : List ℕ) → All (λ c. c ≢ 0) (xs ++ ys) → All (λ c. c ≢ 0) xs
All-left [] ys h = tt
All-left (x ∷ xs) ys h = (h.0, All-left xs ys h.1)

All-both :
    (b : ℕ) (xs : List ℕ)
    → All (λ c. (c ≢ 0) × (c ≢ b)) xs
    → All (λ c. c ≢ 0) xs × All (λ c. c ≢ b) xs
All-both b [] h = (tt, tt)
All-both b (x ∷ xs) h =
    let (zero_free, b_free) = All-both b xs h.1 in ((h.0.0, zero_free), (h.0.1, b_free))

-- the message is the line with the name of its sender
message_text_lem :
    (a : ℕ) (line : List ℕ)
    → IsLine a line
    → message_text a (filled (send_line line)) ≡ named a line
unfolding message_text send_line
message_text_lem a line h =
    ap (named a)
      (ap (λ l. cstr (filled l)) (cstr-filled line clean short) ∙ cstr-filled line clean short)
  where
    clean : All (λ c. c ≢ 0) line
    clean = All-right (codes ":") line (
        All-right (decimal a) (codes ":" ++ line)
          (All-right (codes "fd=") (decimal a ++ (codes ":" ++ line)) h.no_nul))

    short : length line < 512
    short = omega (
      arith,
      h.short,
      length-append (codes "fd=") (decimal a ++ (codes ":" ++ line)),
      length-append (decimal a) (codes ":" ++ line),
      length-append (codes ":") line,
    )

print_loop-one :
    (text : List ℕ)
    → All (λ c. c ≢ 0) text
    → length text < 512
    → print_loop (bytes text ∷ []) ≡ some (text ∷ [])
unfolding print_loop
print_loop-one text h short =
    rw (below (length text) short, print_loop) (ap (λ l. some (l ∷ [])) (cstr-filled text h short))
  where
    below : (n : ℕ) → n < 512 → ltb n 512 ≡ true
    below n h = ground arith

-- A client `a` types a line of characters other than NUL, which with its name in front fits the buffers. Up to 19 clients
-- have joined an empty room, one after the other, and none has left; `a` is one of the first 18 of them, and `b` is one,
-- other than `a`, that stands in the table once. Then `main` asks for a thread for `a`, and a thread that serves `a`, while
-- nobody joins or leaves, sends on this line without an access outside the table, and `b` prints the line once, with the
-- name of `a` in front.
pub print_loop-broadcast :
    (a b : ℕ) (before after early late line : List ℕ)
    → early ++ (a ∷ late) ≡ before ++ (b ∷ after)
    → length early < 18
    → All (λ c. (c ≢ 0) × (c ≢ b)) before
    → All (λ c. (c ≢ 0) × (c ≢ b)) after
    → a ≢ 0
    → b ≢ 0
    → b ≢ a
    → length before + length after < 19
    → IsLine a line
    → ((main_turn a (join_all early empty_room)).1 ≡ true)
      × ((calls : List Send) × (broadcast a
              (filled (send_line line))
              (join_all (before ++ (b ∷ after)) empty_room)
            ≡ some calls)
          × (print_loop (arriving b calls) ≡ some (named a line ∷ [])))
unfolding arriving
print_loop-broadcast a b before after early late line members soon hb ha na nb ne room fits = (
  served,
  (
    sends a text clients ++ (record { to = 0; text = text } ∷ []),
    broadcast-join_all clients a (filled (send_line line)) clean (omega (arith, size_of, room)) na,
    ap print_loop comes
        ∙ ap (λ t. print_loop (bytes t ∷ [])) (message_text_lem a line fits)
        ∙ print_loop-one (named a line) fits.no_nul fits.short,
  ),
)
  where
    clients : List ℕ
    clients = before ++ (b ∷ after)

    text : List ℕ
    text = message_text a (filled (send_line line))

    clean : All (λ c. c ≢ 0) clients
    clean =
        All-append (λ c. c ≢ 0) before (b ∷ after) (All-both b before hb).0
          (nb, (All-both b after ha).0)

    size_of : length clients ≡ length before + suc (length after)
    size_of = length-append before (b ∷ after)

    comes :
        arriving b (sends a text clients ++ (record { to = 0; text = text } ∷ [])) ≡ bytes text ∷ []
    comes =
        arriving-append b (sends a text clients) (record { to = 0; text = text } ∷ [])
        ∙ ap₂ ◌++◌
            (arriving-one b a text before after ne (All-both b before hb).1 (All-both b after ha).1)
            (rw (ne_test 0 b (λ e. nb (sym e))) refl)

    served : (main_turn a (join_all early empty_room)).1 ≡ true
    served =
        main_turn-join_all early a
          (All-left early (a ∷ late) (subst (All (λ c. c ≢ 0)) (sym members) clean)) soon
