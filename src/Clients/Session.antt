-- ===== src/Clients/Session.antt =====
-- tcp_code/server_thread.c: the loop of `worker` for one client.
pub mod Replies
use linux_api_and_socket_pro.Common.{
  ℕ, zero, suc, ◌+◌, ◌-◌, ◌*◌, ◌/◌, ◌%◌, ◌^◌, ◌≤◌, ◌<◌, min, ◌≡◌, refl, sym, ap, ap₂, subst, ◌∙◌,
  ◌≢◌, ◌↔◌, ◌⊎◌, inl, inr, Bool, true, false, not, ◌&&◌, ◌||◌, Option, none, some, List, [], ◌∷◌,
  ◌++◌, map, append-nil, append_assoc, arith, dec_lt, dec_le, ℕ_discrete, ltb, leb, ◌==◌,
  if◌then◌else◌, ==_iff, ==_refl, ne_test, Bool-cases, Option-cases, codes, length, get_or, set,
  take, drop, replicate, All, length-append, length-set, length-replicate, get_or-set_self,
  get_or-set_ne, take-append-drop, length-take, length-drop, All-append, total, total-nil,
  total-cons, total-append, total-replicate, total-set, total-ge,
}
use linux_api_and_socket_pro.Echo.Buffer.{
  toupper, upper_string, read_into, echo, Answer, bytes, end, failed,
}

-- `char rev_buff[512]` after `memset`
abbrev pub cleared : List ℕ
cleared = replicate 512 0

-- `*(ptr-1) = 0`, with `ptr` at the first NUL; `none` is a byte before the array
unfoldable pub cut : List ℕ → Option (List ℕ)
cut [] = none
cut (c ∷ []) = none
cut (c ∷ d ∷ s) =
    let rest = cut (d ∷ s) in
    if c == 0
    then none
    else if d == 0
    then some (0 ∷ d ∷ s)
    else elim rest [ none ↦ none | some t ↦ some (c ∷ t) ]

-- One message: what is written back; `none` is an access outside the buffer.
unfoldable pub worker_reply : List ℕ → Option (List ℕ)
unfolding upper_string read_into cut
worker_reply input = elim (upper_string (read_into cleared input)) [
  | none ↦ none
  | some b ↦ elim (cut b) [ none ↦ none | some t ↦ some (take (length input) t) ]
]

-- The loop on what the reads give, up to one that gives no bytes.
unfoldable pub worker_loop : List Answer → Option (List (List ℕ))
unfolding worker_reply
worker_loop [] = some []
worker_loop (end ∷ answers) = some []
worker_loop (failed errno ∷ answers) = some []
worker_loop (bytes input ∷ answers) = elim (worker_reply input) [
  | none ↦ none
  | some sent ↦ elim (worker_loop answers) [ none ↦ none | some more ↦ some (sent ∷ more) ]
]
