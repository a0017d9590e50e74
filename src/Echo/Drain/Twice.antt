-- ===== src/Echo/Drain/Twice.antt =====
-- A client that closes its side is closed twice.
use linux_api_and_socket_pro.Common.{
  ℕ, ◌≡◌, refl, ◌≢◌, some, List, [], ◌∷◌, ◌++◌, map, arith, ◌==◌, if◌then◌else◌, ne_test, All,
}
use linux_api_and_socket_pro.Echo.Buffer.{toupper, Answer, bytes, end, failed}
use linux_api_and_socket_pro.Echo.Buffer.Upper.{echo_lem}
use linux_api_and_socket_pro.Echo.Epoll.{new_buff, Call, write, close}
use linux_api_and_socket_pro.Echo.Epoll.Level.{new_buff-IsReady}
use linux_api_and_socket_pro.Echo.Epoll.Edge.{
  Client, event_of, IsLast, IsChunk, concat_calls, upper_to_nul_plain,
}
use linux_api_and_socket_pro.Echo.Drain.{recv_closed, drain, drain_turn, drain_events}

-- how the loop ends: two calls of `close` for a client that has closed its side, one after an error
abbrev pub drain_last : ℕ → Answer → List Call
drain_last fd (failed errno) = if errno == 11 then [] else close fd ∷ []
drain_last fd _ = close fd ∷ close fd ∷ []

abbrev pub drain_calls : Client → List Call
drain_calls c = map (λ chunk. write c.fd (map toupper chunk)) c.chunks ++ drain_last c.fd c.last

drain_lem :
    (fd : ℕ) (chunks : List (List ℕ)) (last : Answer)
    → All IsChunk chunks
    → IsLast last
    → drain fd (map bytes chunks ++ (last ∷ []))
      ≡ some (map (λ chunk. write fd (map toupper chunk)) chunks ++ drain_last fd last)
unfolding drain recv_closed
drain_lem fd [] (bytes input) ok ends = absurd ends
drain_lem fd [] end ok ends = refl
drain_lem fd [] (failed errno) ok ends = refl
drain_lem fd (chunk ∷ chunks) last ok ends =
    let (b, e, nul, len) = echo_lem new_buff chunk new_buff-IsReady.0 (omega (arith, ok.0.0)) in
    rw (e, drain_lem fd chunks last ok.1 ends, upper_to_nul_plain chunk ok.0.1, drain) refl

-- In the edge mode of this server, with reads of at most five bytes and no NUL, the chunks of every client are sent
-- back in upper case, one by one and in order; a client that has closed its side is then closed twice, and one
-- whose read fails other than by EAGAIN once.
pub drain_events_lem :
    (listenfd : ℕ) (clients : List Client)
    → All (λ c. (c.fd ≢ listenfd) × (All IsChunk c.chunks × IsLast c.last)) clients
    → drain_events listenfd (map event_of clients) ≡ some (concat_calls (map drain_calls clients))
unfolding drain_events drain_turn
drain_events_lem listenfd [] ok = refl
drain_events_lem listenfd (c ∷ clients) ok =
    rw
      (
        ne_test c.fd listenfd ok.0.0,
        drain_lem c.fd c.chunks c.last ok.0.1.0 ok.0.1.1,
        drain_events_lem listenfd clients ok.1,
        drain_events,
      )
      refl
