-- ===== src/Events/Tests.antt =====
-- A run of the server on libevent, and the theorem at it.
use linux_api_and_socket_pro.Common.{◌≡◌, refl, true, some, List, [], ◌∷◌, ◌++◌, arith, codes}
use linux_api_and_socket_pro.Echo.Buffer.{toupper}
use linux_api_and_socket_pro.Echo.Buffer.Upper.{upper_to_nul}
use linux_api_and_socket_pro.Events.{
  Server, start, Callback, connects, reads, has_event, take_fd, dispatch_all,
}
use linux_api_and_socket_pro.Events.Memory.{IsOwned, blocks, start-IsOwned, dispatch_all_lem}

-- a client sends and leaves; nothing is written after that
abbrev callbacks : List Callback
callbacks = connects 7 100 true ∷ reads 7 (codes "hi") ∷ has_event 7 ∷ reads 7 (codes "hi") ∷ []

dispatch_all_example :
    (t : Server) × (dispatch_all callbacks start ≡ some ((7, codes "HI" ++ (0 ∷ [])) ∷ [], t))
    × IsOwned t
unfolding blocks take_fd upper_to_nul toupper
dispatch_all_example =
    dispatch_all_lem callbacks start start-IsOwned
      ((omega arith, refl), (omega arith, (tt, (omega arith, tt))))
