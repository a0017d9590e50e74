-- ===== src/Echo/Poll.antt =====
-- select_poll_epoll/poll_server.c: the echo server on `poll`, with a table of 1024 slots.
pub mod Slots
pub mod Calls
pub mod Serve
pub mod Rounds
mod Tests
use linux_api_and_socket_pro.Common.{
  ℕ, zero, suc, ◌+◌, ◌-◌, ◌*◌, ◌/◌, ◌%◌, ◌^◌, ◌≤◌, ◌<◌, min, ◌≡◌, refl, sym, ap, ap₂, subst, ◌∙◌,
  ◌≢◌, ◌↔◌, ◌⊎◌, inl, inr, Bool, true, false, not, ◌&&◌, ◌||◌, Option, none, some, List, [], ◌∷◌,
  ◌++◌, map, append-nil, append_assoc, arith, dec_lt, dec_le, ℕ_discrete, ltb, leb, ◌==◌,
  if◌then◌else◌, ==_iff, ==_refl, ne_test, Bool-cases, Option-cases, codes, length, get_or, set,
  take, drop, replicate, All, length-append, length-set, length-replicate, get_or-set_self,
  get_or-set_ne, take-append-drop, length-take, length-drop, All-append, total, total-nil,
  total-cons, total-append, total-replicate, total-set, total-ge,
}
use linux_api_and_socket_pro.Echo.Buffer.{
  toupper, upper_string, read_into, echo, Answer, bytes, end, failed,
}

abbrev pub table_size : ℕ
table_size = 1024

abbrev pub buff_size : ℕ
buff_size = 512

-- The locals of the loop; a free slot, whose descriptor is -1, is `none`.
pub record Poll : Type 0 where
  pub client_fds : List (Option ℕ)
  pub max_fd : ℕ
  pub buff : List ℕ

unfoldable pub new_poll : (lfd : ℕ) → Poll
new_poll lfd = record {
  client_fds = some lfd ∷ replicate (table_size - 1) none;
  max_fd = 0;
  buff = replicate buff_size 0;
}

-- the calls that change something
pub data Call : Type 0 where
  write : (fd : ℕ) (block : List ℕ) → Call
  close : (fd : ℕ) → Call

abbrev pub is_free : Option ℕ → Bool
is_free none = true
is_free (some fd) = false

-- The search for a free slot from `i` on, over so many slots.
unfoldable pub find_free : (fds : List (Option ℕ)) (rounds i : ℕ) → ℕ
find_free fds zero i = i
find_free fds (suc rounds) i =
    let later = find_free fds rounds (i + 1) in if is_free (get_or fds i none) then i else later

-- `i > max_fd ? i : max_fd`
unfoldable pub larger : ℕ → ℕ → ℕ
larger i max_fd = if ltb max_fd i then i else max_fd

-- a new client, `none` for the -1 of a failed `accept`; a slot behind the table is not written
unfoldable pub add_client : Poll → Option ℕ → Poll
unfolding find_free larger
add_client p cfd =
    let i = find_free p.client_fds (table_size - 1) 1 in
    record p { client_fds = set p.client_fds i cfd; max_fd = larger i p.max_fd }

-- what a turn of the loop over the slots does: it goes on, it leaves the loop, or it is outside an array
pub data Turn : Type 0 where
  goes_on : (calls : List Call) (after : Poll) → Turn
  breaks : Turn
  overruns : Turn

-- a slot that is in use and readable
unfoldable pub serve_fd : Poll → (i fd : ℕ) → Answer → Turn
unfolding echo
serve_fd p i fd (bytes input) = elim (echo p.buff input) [
  | none ↦ overruns
  | some (sent, b) ↦ goes_on (write fd sent ∷ []) (record p { buff = b })
]
serve_fd p i fd end = goes_on (close fd ∷ []) (record p { client_fds = set p.client_fds i none })
serve_fd p i fd (failed errno) = breaks

-- The turn for slot `i`. `readable` says which slots have POLLIN in `revents`, and `answers` what the reads give.
unfoldable pub serve_slot : (readable : ℕ → Bool) (answers : ℕ → Answer) → Poll → ℕ → Turn
unfolding serve_fd
serve_slot readable answers p i =
    if leb table_size i then overruns else elim (get_or p.client_fds i none) [
      | none ↦ goes_on [] p
      | some fd ↦ if readable i then serve_fd p i fd (answers i) else goes_on [] p
    ]

-- The loop over so many slots from `i` on; `none` is an access outside an array.
unfoldable pub serve_from :
    (readable : ℕ → Bool) (answers : ℕ → Answer) (rounds i : ℕ) → Poll → Option (List Call × Poll)
unfolding serve_slot
serve_from readable answers zero i p = some ([], p)
serve_from readable answers (suc rounds) i p = elim (serve_slot readable answers p i) [
  | overruns ↦ none
  | breaks ↦ some ([], p)
  | goes_on calls after ↦ elim (serve_from readable answers rounds (i + 1) after) [
    | none ↦ none
    | some (more, last) ↦ some (calls ++ more, last)
  ]
]

-- One turn of the main loop after `poll` has returned.
unfoldable pub poll_round :
    (readable : ℕ → Bool) (answers : ℕ → Answer) (cfd : Option ℕ) → Poll → Option (List Call × Poll)
unfolding add_client serve_from
poll_round readable answers cfd p =
    let q = if readable 0 then add_client p cfd else p in serve_from readable answers q.max_fd 1 q

-- what a round brings: whether `poll` succeeds, and then what is readable, what the reads give, and who connects
pub record PollRound : Type 0 where
  pub polls : Bool
  pub readable : ℕ → Bool
  pub answers : ℕ → Answer
  pub cfd : Option ℕ

-- The main loop over so many rounds; it ends where `poll` fails.
unfoldable pub poll_rounds : List PollRound → Poll → Option (List Call × Poll)
unfolding poll_round
poll_rounds [] p = some ([], p)
poll_rounds (r ∷ rounds) p =
    if not r.polls then some ([], p) else elim (poll_round r.readable r.answers r.cfd p) [
      | none ↦ none
      | some (calls, after) ↦ elim (poll_rounds rounds after) [
        | none ↦ none
        | some (more, last) ↦ some (calls ++ more, last)
      ]
    ]
