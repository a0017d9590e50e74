-- ===== src/Udp.antt =====
-- udp_code/udp_server.c: a server that sends datagrams back, in upper case.
pub mod Replies
pub mod Client
mod Tests
use linux_api_and_socket_pro.Common.{
  ℕ, zero, suc, ◌+◌, ◌-◌, ◌*◌, ◌/◌, ◌%◌, ◌^◌, ◌≤◌, ◌<◌, min, ◌≡◌, refl, sym, ap, ap₂, subst, ◌∙◌,
  ◌≢◌, ◌↔◌, ◌⊎◌, inl, inr, Bool, true, false, not, ◌&&◌, ◌||◌, Option, none, some, List, [], ◌∷◌,
  ◌++◌, map, append-nil, append_assoc, arith, dec_lt, dec_le, ℕ_discrete, ltb, leb, ◌==◌,
  if◌then◌else◌, ==_iff, ==_refl, ne_test, Bool-cases, Option-cases, codes, length, get_or, set,
  take, drop, replicate, All, length-append, length-set, length-replicate, get_or-set_self,
  get_or-set_ne, take-append-drop, length-take, length-drop, All-append, total, total-nil,
  total-cons, total-append, total-replicate, total-set, total-ge,
}
use linux_api_and_socket_pro.Echo.Buffer.{
  toupper, upper_string, read_into, echo, Answer, bytes, end, failed,
}

-- what `recvfrom` gives: the client and the bytes, or -1; and whether `sendto` then succeeds
pub record Datagram : Type 0 where
  pub client : ℕ
  pub received : Option (List ℕ)
  pub sends : Bool

-- the calls before the loop and in it; `aborts` is an `assert` that fails
pub data Call : Type 0 where
  socket : Call
  bind : (sockfd port : ℕ) → Call
  sendto : (client : ℕ) (block : List ℕ) → Call
  exits : Call
  aborts : Call

-- The set-up, with the descriptor of `socket` and whether `bind` succeeds; descriptor 0 counts as a failure.
unfoldable pub udp_setup : (sockfd : Option ℕ) (binds : Bool) → List Call × Option ℕ
udp_setup none binds = (socket ∷ aborts ∷ [], none)
udp_setup (some sockfd) binds =
    if sockfd == 0
    then (socket ∷ aborts ∷ [], none)
    else if binds
    then (socket ∷ bind sockfd 9999 ∷ [], some sockfd)
    else (socket ∷ bind sockfd 9999 ∷ exits ∷ [], none)

-- A turn of the loop: the calls, and the buffer if the loop goes on. `none` is a loop past the end of the buffer.
unfoldable pub udp_turn : (recv_buff : List ℕ) → Datagram → Option (List Call × Option (List ℕ))
unfolding echo
udp_turn recv_buff d = elim d.received [
  | none ↦ some (aborts ∷ [], none)
  | some input ↦
      if length input == 0 then some (aborts ∷ [], none) else elim (echo recv_buff input) [
        | none ↦ none
        | some (sent, b) ↦
            if d.sends
            then some (sendto d.client sent ∷ [], some b)
            else some (sendto d.client sent ∷ aborts ∷ [], none)
      ]
]

-- The endless loop on the datagrams that come.
unfoldable pub udp_loop : (recv_buff : List ℕ) → List Datagram → Option (List Call)
unfolding udp_turn
udp_loop recv_buff [] = some []
udp_loop recv_buff (d ∷ datagrams) = elim (udp_turn recv_buff d) [
  | none ↦ none
  | some (calls, none) ↦ some calls
  | some (calls, some b) ↦ elim (udp_loop b datagrams) [
    | none ↦ none
    | some more ↦ some (calls ++ more)
  ]
]
