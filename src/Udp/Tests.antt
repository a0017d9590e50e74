-- ===== src/Udp/Tests.antt =====
-- A run of the datagram server, and the theorem at it.
use linux_api_and_socket_pro.Common.{◌≡◌, refl, inr, true, some, [], ◌∷◌, arith, codes, replicate}
use linux_api_and_socket_pro.Echo.Buffer.{toupper}
use linux_api_and_socket_pro.Echo.Buffer.Upper.{upper_to_nul, EndsInNul}
use linux_api_and_socket_pro.Udp.{Datagram, sendto, aborts, udp_loop}
use linux_api_and_socket_pro.Udp.Client.{udp_session, udp_session_lem}
use linux_api_and_socket_pro.Udp.Replies.{udp_loop_lem}

-- a client sends, another sends nothing, and the third is not answered
abbrev first : Datagram
first = record { client = 1; received = some (codes "hi"); sends = true }

abbrev second : Datagram
second = record { client = 2; received = some []; sends = true }

abbrev third : Datagram
third = record { client = 3; received = some (codes "ho"); sends = true }

udp_loop_example :
    udp_loop (replicate 1024 0) (first ∷ second ∷ third ∷ [])
    ≡ some (sendto 1 (codes "HI") ∷ aborts ∷ [])
unfolding EndsInNul upper_to_nul toupper
udp_loop_example =
    udp_loop_lem (replicate 1024 0) (first ∷ []) (codes "hi" ∷ []) second (third ∷ []) refl refl
      (record { arrives = refl; low = omega arith; high = omega arith; sends = refl }, tt)
      (inr refl)

udp_session_example :
    udp_session (replicate 1024 77) (codes "hi\n" ∷ codes "ho\n" ∷ [])
    ≡ some (codes "HI\n" ∷ codes "HO\n" ∷ [])
unfolding toupper
udp_session_example = udp_session_lem (replicate 1024 77) (codes "hi\n" ∷ codes "ho\n" ∷ []) (
  record { no_nul = omega arith; short = omega arith },
  (record { no_nul = omega arith; short = omega arith }, tt),
)
