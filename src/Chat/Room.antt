-- ===== src/Chat/Room.antt =====
-- server_code/server.c: the table of clients, and what `main` and `service_thread` do with it.
pub mod Joins
use linux_api_and_socket_pro.Common.{
  ℕ, zero, suc, ◌+◌, ◌-◌, ◌*◌, ◌/◌, ◌%◌, ◌^◌, ◌≤◌, ◌<◌, min, ◌≡◌, refl, sym, ap, ap₂, subst, ◌∙◌,
  ◌≢◌, ◌↔◌, ◌⊎◌, inl, inr, Bool, true, false, not, ◌&&◌, ◌||◌, Option, none, some, List, [], ◌∷◌,
  ◌++◌, map, append-nil, append_assoc, arith, dec_lt, dec_le, ℕ_discrete, ltb, leb, ◌==◌,
  if◌then◌else◌, ==_iff, ==_refl, ne_test, Bool-cases, Option-cases, codes, length, get_or, set,
  take, drop, replicate, All, length-append, length-set, length-replicate, get_or-set_self,
  get_or-set_ne, take-append-drop, length-take, length-drop, All-append, total, total-nil,
  total-cons, total-append, total-replicate, total-set, total-ge,
}
use linux_api_and_socket_pro.Echo.Buffer.{
  toupper, upper_string, read_into, echo, Answer, bytes, end, failed,
}
use linux_api_and_socket_pro.Http.Bytes.{
  cr, lf, blank, cstr, str_eq, strrchr, tolower, isspace, isxdigit, bit_or, decimal_from, decimal,
  str_eq_refl, strrchr-append, strrchr_missing,
}

abbrev pub size : ℕ
size = 20

-- the globals; a free slot is 0
pub record Room : Type 0 where
  pub fds : List ℕ
  pub user : ℕ

unfoldable pub empty_room : Room
empty_room = record { fds = replicate size 0; user = 0 }

-- The first slot that holds `old` is given `new`; `none` if there is no such slot.
unfoldable pub replace : (old new : ℕ) → List ℕ → Option (List ℕ)
replace old new [] = none
replace old new (g ∷ gs) =
    let rest = replace old new gs in
    if g == old then some (new ∷ gs) else elim rest [ none ↦ none | some hs ↦ some (g ∷ hs) ]

-- `main` with a new client; in a full table nothing changes.
unfoldable pub join : ℕ → Room → Room
unfolding replace
join new_sock r = elim (replace 0 new_sock r.fds) [
  | none ↦ r
  | some fds ↦ record { fds = fds; user = r.user + 1 }
]

-- `service_thread` when its client has gone: `user` is lowered whether or not the client stands in the table.
unfoldable pub part : ℕ → Room → Room
unfolding replace
part fd r = record {
  fds = elim (replace fd 0 r.fds) [ none ↦ r.fds | some fds ↦ fds ];
  user = r.user - 1;
}

-- what is sent for a message; one that is too long for the buffers is no case of the model
unfoldable pub message_text : ℕ → List ℕ → List ℕ
unfolding cstr decimal
message_text fd recvbuf = codes "fd=" ++ (decimal fd ++ (codes ":" ++ cstr recvbuf))

-- a call of `send`: the descriptor and the bytes
pub record Send : Type 0 where
  pub to : ℕ
  pub text : List ℕ

-- The loop over so many slots; `none` is an access behind the table.
unfoldable pub send_loop : (fd : ℕ) (text : List ℕ) (rounds : ℕ) → List ℕ → Option (List Send)
send_loop fd text zero slots = some []
send_loop fd text (suc rounds) [] = none
send_loop fd text (suc rounds) (g ∷ slots) =
    let rest = send_loop fd text rounds slots in
    elim rest [
      | none ↦ none
      | some calls ↦ some (if g == fd then calls else record { to = g; text = text } ∷ calls)
    ]

-- `service_thread` with a message of its client, over the slots from 0 to `user`
unfoldable pub broadcast : (fd : ℕ) (recvbuf : List ℕ) → Room → Option (List Send)
unfolding message_text send_loop
broadcast fd recvbuf r = send_loop fd (message_text fd recvbuf) (suc r.user) r.fds

-- A turn of `main`: the room, and whether a thread is started for the client.
unfoldable pub main_turn : (new_sock : ℕ) → Room → Room × Bool
unfolding join
main_turn new_sock r = let q = join new_sock r in (q, ltb q.user 19)

-- A turn of `service_thread`, with what `recv` gives: what is sent, the room, and whether the thread goes on.
unfoldable pub service_turn : (fd : ℕ) → Answer → Room → Option (List Send × Room × Bool)
unfolding part broadcast
service_turn fd (bytes recvbuf) r = elim (broadcast fd recvbuf r) [
  | none ↦ none
  | some calls ↦ some (calls, r, true)
]
service_turn fd end r = some ([], part fd r, false)
service_turn fd (failed errno) r = some ([], part fd r, false)
