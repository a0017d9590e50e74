-- ===== src/Udp/Client.antt =====
-- udp_code/udp_client.c: what it sends for each line that is typed, and what it prints; and with it the server.
use linux_api_and_socket_pro.Common.{
  ℕ, suc, ◌+◌, ◌-◌, ◌<◌, ◌≡◌, refl, ap, ◌∙◌, ◌≢◌, true, Option, none, some, List, [], ◌∷◌, ◌++◌,
  map, append_assoc, arith, ne_test, length, take, drop, replicate, All, length-append,
}
use linux_api_and_socket_pro.Echo.Buffer.{toupper, upper_string, read_into, echo}
use linux_api_and_socket_pro.Http.Bytes.{cstr, cstr-nul}
use linux_api_and_socket_pro.Clients.Session.Replies.{upper_before_nul, length-map}
use linux_api_and_socket_pro.Clients.Client.Session.{take-nul, upper_clean}
use linux_api_and_socket_pro.Udp.{Datagram, Call, sendto, udp_turn}

-- `buf`, which is zero, after `fgets`
unfoldable pub line_buffer : (line : List ℕ) → List ℕ
line_buffer line = line ++ replicate (1024 - length line) 0

-- what `sendto` sends: the string and its NUL
unfoldable pub datagram_of : (line : List ℕ) → List ℕ
unfolding line_buffer cstr
datagram_of line = take (length (cstr (line_buffer line)) + 1) (line_buffer line)

-- what is printed after a `recvfrom` of 1024 bytes at most
unfoldable pub printed_reply : (line reply : List ℕ) → List ℕ
unfolding line_buffer cstr read_into
printed_reply line reply = cstr (read_into (line_buffer line) (take 1024 reply))

-- the block that the server has sent
unfoldable pub reply_of : List Call → List ℕ
reply_of (sendto client block ∷ calls) = block
reply_of _ = []

-- The loop of the client on the lines that are typed, with the server's turns between, when no datagram is lost: the
-- strings that are printed. `none` is an access of the server outside its buffer.
unfoldable pub udp_session : (recv_buff : List ℕ) → (lines : List (List ℕ)) → Option (List (List ℕ))
unfolding udp_turn datagram_of printed_reply reply_of
udp_session recv_buff [] = some []
udp_session recv_buff (line ∷ lines) =
    elim (udp_turn recv_buff
      (record { client = 1; received = some (datagram_of line); sends = true })) [
        | none ↦ none
        | some (calls, none) ↦ some []
        | some (calls, some b) ↦ elim (udp_session b lines) [
          | none ↦ none
          | some more ↦ some (printed_reply line (reply_of calls) ∷ more)
        ]
      ]

-- characters other than NUL that fit the buffers with a NUL
pub record IsFitting (line : List ℕ) : Type 0 where
  pub no_nul : All (λ c. c ≢ 0) line
  pub short : length line < 1023

line_buffer_lem :
    (line : List ℕ)
    → length line < 1023
    → line_buffer line ≡ line ++ (0 ∷ replicate (1023 - length line) 0)
unfolding line_buffer
line_buffer_lem line h =
    ap (λ n. line ++ replicate n 0) {x = 1024 - length line} {y = suc (1023 - length line)}
      (omega (arith, h))

datagram_of_lem : (line : List ℕ) → IsFitting line → datagram_of line ≡ line ++ (0 ∷ [])
unfolding datagram_of
datagram_of_lem line h =
    rw (line_buffer_lem line h.short, cstr-nul line zeros h.no_nul)
      (take-nul line zeros (length line + 1) (omega arith)
        ∙ ap (λ k. line ++ (0 ∷ take k zeros)) {x = length line + 1 - length line - 1} {y = 0}
            (omega arith))
  where
    zeros : List ℕ
    zeros = replicate (1023 - length line) 0

-- The server answers the string of a line, and its NUL, whatever its buffer holds.
echo-line :
    (buff line : List ℕ)
    → IsFitting line
    → (b : List ℕ) × (echo buff (line ++ (0 ∷ [])) ≡ some (map toupper line ++ (0 ∷ []), b))
unfolding echo read_into
echo-line buff line h = (
  map toupper line ++ (0 ∷ s),
  rw (upper, echo) (ap (λ l. some (l, map toupper line ++ (0 ∷ s))) taken),
)
  where
    s : List ℕ
    s = drop (length (line ++ (0 ∷ []))) buff

    upper : upper_string ((line ++ (0 ∷ [])) ++ s) ≡ some (map toupper line ++ (0 ∷ s))
    upper = ap upper_string (append_assoc line (0 ∷ []) s) ∙ upper_before_nul line s h.no_nul

    taken :
        take (length (line ++ (0 ∷ []))) (map toupper line ++ (0 ∷ s))
        ≡ map toupper line ++ (0 ∷ [])
    taken =
        take-nul (map toupper line) s (length (line ++ (0 ∷ [])))
          (omega (arith, length-map line, length-append line (0 ∷ [])))
        ∙ ap (λ k. map toupper line ++ (0 ∷ take k s))
            {x = length (line ++ (0 ∷ [])) - length (map toupper line) - 1} {y = 0}
            (omega (arith, length-map line, length-append line (0 ∷ [])))

printed_reply_lem :
    (line : List ℕ)
    → IsFitting line
    → printed_reply line (map toupper line ++ (0 ∷ [])) ≡ map toupper line
unfolding printed_reply read_into
printed_reply_lem line h =
    rw
      (
        take-nul (map toupper line) [] 1024 (omega (arith, length-map line, h.short)),
        append_assoc (map toupper line) (0 ∷ take (1024 - length (map toupper line) - 1) []) (
            drop (length (map toupper line ++ (0 ∷ take (1024 - length (map toupper line) - 1) [])))
              (line_buffer line)),
      )
      (cstr-nul (map toupper line) _ (upper_clean line h.no_nul))

abbrev datagram : (input : List ℕ) → Datagram
datagram input = record { client = 1; received = some input; sends = true }

udp_turn-echo :
    (buff input sent b : List ℕ)
    → length input ≢ 0
    → echo buff input ≡ some (sent, b)
    → udp_turn buff (datagram input) ≡ some (sendto 1 sent ∷ [], some b)
unfolding udp_turn
udp_turn-echo buff input sent b ne e = rw (ne_test (length input) 0 ne, e, udp_turn) refl

udp_turn-line :
    (buff line : List ℕ)
    → IsFitting line
    → (b : List ℕ) × (udp_turn buff (datagram (datagram_of line))
        ≡ some (sendto 1 (map toupper line ++ (0 ∷ [])) ∷ [], some b))
udp_turn-line buff line h =
    let (b, e) = echo-line buff line h in
    (
      b,
      rw (datagram_of_lem line h) (
          udp_turn-echo buff (line ++ (0 ∷ [])) (map toupper line ++ (0 ∷ [])) b
            (λ z. absurd (omega (arith, z, length-append line (0 ∷ [])))) e),
    )

-- A client types lines of at most 1022 characters other than NUL, and no datagram is lost. Whatever the server's buffer,
-- which is not initialised, holds at the start, the server accesses nothing outside it, and the client prints each
-- line in upper case, in order.
pub udp_session_lem :
    (recv_buff : List ℕ) (lines : List (List ℕ))
    → All IsFitting lines
    → udp_session recv_buff lines ≡ some (map (map toupper) lines)
unfolding udp_session reply_of
udp_session_lem recv_buff [] ok = refl
udp_session_lem recv_buff (line ∷ lines) ok =
    let (b, e) = udp_turn-line recv_buff line ok.0 in
    rw (e, udp_session_lem b lines ok.1, printed_reply_lem line ok.0, udp_session) refl
