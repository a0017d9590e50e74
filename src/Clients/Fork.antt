-- ===== src/Clients/Fork.antt =====
-- tcp_code/server_fork.c: a server that forks for each client.
pub mod Child
-- the loop of a child, which clears its buffer only at its start
use linux_api_and_socket_pro.Common.{
  ℕ, zero, suc, ◌+◌, ◌-◌, ◌*◌, ◌/◌, ◌%◌, ◌^◌, ◌≤◌, ◌<◌, min, ◌≡◌, refl, sym, ap, ap₂, subst, ◌∙◌,
  ◌≢◌, ◌↔◌, ◌⊎◌, inl, inr, Bool, true, false, not, ◌&&◌, ◌||◌, Option, none, some, List, [], ◌∷◌,
  ◌++◌, map, append-nil, append_assoc, arith, dec_lt, dec_le, ℕ_discrete, ltb, leb, ◌==◌,
  if◌then◌else◌, ==_iff, ==_refl, ne_test, Bool-cases, Option-cases, codes, length, get_or, set,
  take, drop, replicate, All, length-append, length-set, length-replicate, get_or-set_self,
  get_or-set_ne, take-append-drop, length-take, length-drop, All-append, total, total-nil,
  total-cons, total-append, total-replicate, total-set, total-ge,
}
use linux_api_and_socket_pro.Echo.Buffer.{
  toupper, upper_string, read_into, echo, Answer, bytes, end, failed,
}
use linux_api_and_socket_pro.Clients.Session.{cleared, cut, worker_reply, worker_loop}

-- `char rev_buff[512] = { 0 }`
abbrev pub rev_buff : List ℕ
rev_buff = replicate 512 0

-- One message: the buffer that is written back, all of it, and kept; `none` is an access outside the buffer.
unfoldable pub child_reply : (buff input : List ℕ) → Option (List ℕ)
unfolding upper_string read_into cut
child_reply buff input = elim (upper_string (read_into buff input)) [ none ↦ none | some b ↦ cut b ]

-- how a child ends
pub data Exit : Type 0 where
  closes_and_exits : Exit
  exits_on_error : Exit
  still_reading : Exit

-- The loop on what the reads give: the blocks written, and how the child ends.
unfoldable pub child_loop : (buff : List ℕ) → List Answer → Option (List (List ℕ) × Exit)
unfolding child_reply
child_loop buff [] = some ([], still_reading)
child_loop buff (end ∷ answers) = some ([], closes_and_exits)
child_loop buff (failed errno ∷ answers) = some ([], exits_on_error)
child_loop buff (bytes input ∷ answers) = elim (child_reply buff input) [
  | none ↦ none
  | some b ↦ elim (child_loop b answers) [ none ↦ none | some (more, exit) ↦ some (b ∷ more, exit) ]
]
