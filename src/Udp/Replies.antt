-- ===== src/Udp/Replies.antt =====
-- Which datagrams are answered, and with what.
use linux_api_and_socket_pro.Common.{
  ℕ, ◌<◌, ◌≡◌, refl, ◌∙◌, ◌⊎◌, inl, inr, true, Option, none, some, List, [], ◌∷◌, ◌++◌, arith,
  ne_test, length,
}
use linux_api_and_socket_pro.Echo.Buffer.Upper.{upper_to_nul, EndsInNul, echo_lem}
use linux_api_and_socket_pro.Udp.{Datagram, Call, sendto, aborts, udp_turn, udp_loop}

-- a datagram of 1 to 1023 bytes, whose answer can be sent
pub record IsFull (d : Datagram) (input : List ℕ) : Type 0 where
  pub arrives : d.received ≡ some input
  pub low : 0 < length input
  pub high : length input < 1024
  pub sends : d.sends ≡ true

abbrev pub AllFull : List Datagram → List (List ℕ) → Type 0
AllFull [] [] = Unit
AllFull (d ∷ datagrams) (input ∷ inputs) = IsFull d input × AllFull datagrams inputs
AllFull _ _ = ⊥

-- the answers, each to its own client
abbrev pub answers : List Datagram → List (List ℕ) → List Call
answers (d ∷ datagrams) (input ∷ inputs) =
    sendto d.client (upper_to_nul input) ∷ answers datagrams inputs
answers _ _ = []

-- no bytes, or an error
abbrev pub IsEmpty : Option (List ℕ) → Type 0
IsEmpty received = (received ≡ none) ⊎ (received ≡ some [])

-- From a buffer of 1024 bytes whose last is NUL, datagrams of 1 to 1023 bytes are answered one by one, each to its own
-- client and in upper case up to its first NUL, as long as the answers can be sent; then an empty datagram, or an
-- error, ends the program, and no later datagram is answered.
pub udp_loop_lem :
    (recv_buff : List ℕ) (datagrams : List Datagram) (inputs : List (List ℕ)) (last : Datagram)
    (later : List Datagram)
    → EndsInNul recv_buff
    → length recv_buff ≡ 1024
    → AllFull datagrams inputs
    → IsEmpty last.received
    → udp_loop recv_buff (datagrams ++ (last ∷ later))
      ≡ some (answers datagrams inputs ++ (aborts ∷ []))
unfolding udp_loop udp_turn
udp_loop_lem buff [] [] last later nul len ok (inl e) = rw (e, udp_turn) refl
udp_loop_lem buff [] [] last later nul len ok (inr e) = rw (e, udp_turn) refl
udp_loop_lem buff [] (input ∷ inputs) last later nul len ok e = absurd ok
udp_loop_lem buff (d ∷ datagrams) [] last later nul len ok e = absurd ok
udp_loop_lem buff (d ∷ datagrams) (input ∷ inputs) last later nul len ok e =
    let (b, echoed, nul', len') = echo_lem buff input nul (omega (arith, ok.0.high, len)) in
    rw
      (
        ok.0.arrives,
        ne_test (length input) 0 (λ z. absurd (omega (arith, ok.0.low, z))),
        echoed,
        ok.0.sends,
        udp_loop_lem b datagrams inputs last later nul' (len' ∙ len) ok.1 e,
        udp_turn,
        udp_loop,
      )
      refl
