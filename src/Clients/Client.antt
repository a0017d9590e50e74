-- ===== src/Clients/Client.antt =====
-- tcp_code/client.c: what it sends for each line that is typed, and what it prints of the answer.
pub mod Session
pub mod Peers
use linux_api_and_socket_pro.Common.{
  ℕ, zero, suc, ◌+◌, ◌-◌, ◌*◌, ◌/◌, ◌%◌, ◌^◌, ◌≤◌, ◌<◌, min, ◌≡◌, refl, sym, ap, ap₂, subst, ◌∙◌,
  ◌≢◌, ◌↔◌, ◌⊎◌, inl, inr, Bool, true, false, not, ◌&&◌, ◌||◌, Option, none, some, List, [], ◌∷◌,
  ◌++◌, map, append-nil, append_assoc, arith, dec_lt, dec_le, ℕ_discrete, ltb, leb, ◌==◌,
  if◌then◌else◌, ==_iff, ==_refl, ne_test, Bool-cases, Option-cases, codes, length, get_or, set,
  take, drop, replicate, All, length-append, length-set, length-replicate, get_or-set_self,
  get_or-set_ne, take-append-drop, length-take, length-drop, All-append, total, total-nil,
  total-cons, total-append, total-replicate, total-set, total-ge,
}
use linux_api_and_socket_pro.Echo.Buffer.{
  toupper, upper_string, read_into, echo, Answer, bytes, end, failed,
}
use linux_api_and_socket_pro.Http.Bytes.{
  cr, lf, blank, cstr, str_eq, strrchr, tolower, isspace, isxdigit, bit_or, decimal_from, decimal,
  str_eq_refl, strrchr-append, strrchr_missing,
}
use linux_api_and_socket_pro.Clients.Session.{cleared, cut, worker_reply, worker_loop}
use linux_api_and_socket_pro.Clients.Fork.{
  rev_buff, child_reply, Exit, closes_and_exits, exits_on_error, still_reading, child_loop,
}

-- A server as its client sees it: from its state and a message, the answer and the state after it; `none` is an access
-- outside its memory. A message and an answer are each read as a whole.
pub record Peer (S : Type 0) : Type 1 where
  pub respond : S → List ℕ → Option (List ℕ × S)

-- `sendbuf` after `memset` and `fgets`, which gives a line, or leaves the buffer at the end of the input
unfoldable pub typed : (line : List ℕ) → List ℕ
typed line = line ++ replicate (512 - length line) 0

-- `strcmp(sendbuf, "qqq\n") == 0`
unfoldable pub is_quit : (line : List ℕ) → Bool
unfolding cstr str_eq typed
is_quit line = str_eq (cstr (typed line)) (codes "qqq\n")

-- what `write` sends: the string and its NUL
unfoldable pub message : (line : List ℕ) → List ℕ
unfolding cstr typed
message line = take (length (cstr (typed line)) + 1) (typed line)

-- what is printed of `sendbuf` after a `read` of 512 bytes at most
unfoldable pub printed : (line reply : List ℕ) → List ℕ
unfolding cstr typed read_into
printed line reply = cstr (read_into (typed line) (take 512 reply))

module _ {S : Type 0} (peer : Peer S) where
  -- The loop on the lines that are typed, up to one that quits: the strings that are printed.
  unfoldable pub client_loop : S → (lines : List (List ℕ)) → Option (List (List ℕ))
  unfolding is_quit message printed
  client_loop s [] = some []
  client_loop s (line ∷ lines) =
      if is_quit line then some [] else elim (peer.respond s (message line)) [
        | none ↦ none
        | some (reply, t) ↦ elim (client_loop t lines) [
          | none ↦ none
          | some more ↦ some (printed line reply ∷ more)
        ]
      ]

-- an answer, and the state that comes with it
abbrev pub paired : {S : Type 0} → (List ℕ → S) → Option (List ℕ) → Option (List ℕ × S)
paired state none = none
paired state (some reply) = some (reply, state reply)

-- a worker of server_thread.c, which keeps nothing
abbrev pub worker_peer : Peer Unit
worker_peer = record { respond = λ s input. paired (λ reply. tt) (worker_reply input) }

-- a child of server_fork.c, which keeps its buffer and sends all of it
abbrev pub child_peer : Peer (List ℕ)
child_peer = record { respond = λ buff input. paired (λ reply. reply) (child_reply buff input) }
