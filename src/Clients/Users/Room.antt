-- ===== src/Clients/Users/Room.antt =====
-- The counter of users never lets `main` search a full table, and no two threads share a slot.
use linux_api_and_socket_pro.Common.{ℕ, ◌≤◌, ◌<◌, ◌≡◌, subst, none, get_or}
use linux_api_and_socket_pro.Clients.Users.{
  max_user, accepting, Server, start, Step, choose, accept, accept_fails, create, create_fails,
  load_user, count, close_fd, free_slot, load_leave, leave, Reach, here, next,
}
use linux_api_and_socket_pro.Clients.Users.Inv.{loaders, AreApart, IsOpen, IsSound}
use linux_api_and_socket_pro.Clients.Users.Fill.{
  start-IsSound, choose-IsSound, accept-IsSound, create-IsSound, create_fails-IsSound,
  load_user-IsSound, count-IsSound, end-IsSound,
}
use linux_api_and_socket_pro.Clients.Users.Empty.{
  close-IsSound, free-IsSound, load_leave-IsSound, leave-IsSound,
}

Step-IsSound : {s t : Server} → Step s t → loaders s ≤ 1 → IsSound s → IsSound t
Step-IsSound {s} (choose at_m room) alone h = choose-IsSound s at_m room h
Step-IsSound {s} (accept i fd at_m) alone h = accept-IsSound s i fd at_m h
Step-IsSound {s} (accept_fails i at_m) alone h = end-IsSound s i at_m h
Step-IsSound {s} (create i at_m) alone h = create-IsSound s i at_m h
Step-IsSound {s} (create_fails i at_m) alone h = create_fails-IsSound s i at_m h
Step-IsSound {s} (load_user at_m) alone h = load_user-IsSound s at_m h
Step-IsSound {s} (count r l at_m) alone h = count-IsSound s r l at_m alone h
Step-IsSound {s} (close_fd w i e) alone h = close-IsSound s w i e h
Step-IsSound {s} (free_slot w i e) alone h = free-IsSound s w i e h
Step-IsSound {s} (load_leave w e) alone h = load_leave-IsSound s w e h
Step-IsSound {s} (leave w r l e) alone h = leave-IsSound s w r l e alone h

pub Reach-IsSound : {s : Server} (way : Reach start s) → AreApart way → IsSound s
Reach-IsSound here apart = start-IsSound
Reach-IsSound (next way step) apart = Step-IsSound step apart.1 (Reach-IsSound way apart.0)

-- In a run in which no two threads are at once between the load of `user` and the store of their `++user` or `user--`,
-- which no lock keeps apart: the slot for which `main` accepts a client is a free slot of the table, since the test of
-- `user` leaves it room. Calls of `pthread_create` may fail.
pub room_for_client :
    {s : Server} (i : ℕ) (way : Reach start s)
    → AreApart way
    → s.main ≡ accepting i
    → (i < max_user) × (get_or s.user_sock i none ≡ none)
room_for_client {s} i way apart at_m =
    let found = subst (IsOpen s.user_sock) at_m (Reach-IsSound way apart).chosen in
    (found.1, found.0)
