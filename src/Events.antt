-- ===== src/Events.antt =====
-- lIbevent_code/event_server.c: an echo server over buffer events of libevent.
pub mod Blocks
pub mod Memory
mod Tests
use linux_api_and_socket_pro.Common.{
  ℕ, zero, suc, ◌+◌, ◌-◌, ◌*◌, ◌/◌, ◌%◌, ◌^◌, ◌≤◌, ◌<◌, min, ◌≡◌, refl, sym, ap, ap₂, subst, ◌∙◌,
  ◌≢◌, ◌↔◌, ◌⊎◌, inl, inr, Bool, true, false, not, ◌&&◌, ◌||◌, Option, none, some, List, [], ◌∷◌,
  ◌++◌, map, append-nil, append_assoc, arith, dec_lt, dec_le, ℕ_discrete, ltb, leb, ◌==◌,
  if◌then◌else◌, ==_iff, ==_refl, ne_test, Bool-cases, Option-cases, codes, length, get_or, set,
  take, drop, replicate, All, length-append, length-set, length-replicate, get_or-set_self,
  get_or-set_ne, take-append-drop, length-take, length-drop, All-append, total, total-nil,
  total-cons, total-append, total-replicate, total-set, total-ge,
}
use linux_api_and_socket_pro.Echo.Buffer.{
  toupper, upper_string, read_into, echo, Answer, bytes, end, failed,
}

-- a buffer event, named by its socket, and the `arg` of its callbacks
pub record Connection : Type 0 where
  pub fd : ℕ
  pub arg : ℕ

-- the buffer events that are live, and the addresses that `malloc` has given and that are not freed
pub record Server : Type 0 where
  pub connections : List Connection
  pub heap : List ℕ

abbrev pub start : Server
start = record { connections = []; heap = [] }

-- What libevent calls: the listener's callback, with the address that `malloc` gives and whether a buffer event can be
-- made; the callback for reading, with what `bufferevent_read` gives; and the one for an event.
pub data Callback : Type 0 where
  connects : (fd address : ℕ) (made : Bool) → Callback
  reads : (fd : ℕ) (input : List ℕ) → Callback
  has_event : (fd : ℕ) → Callback

-- `char rev_buff[1024] = {0}`
abbrev pub rev_buff : List ℕ
rev_buff = replicate 1024 0

-- The block that `cb_read` writes, one byte longer than what it has read; `none` is an access outside the buffer.
unfoldable pub cb_read : (input : List ℕ) → Option (List ℕ)
unfolding upper_string read_into
cb_read input = elim (upper_string (read_into rev_buff input)) [
  | none ↦ none
  | some b ↦ if leb (length input + 1) 1024 then some (take (length input + 1) b) else none
]

-- `free`; `none` is an address that is not on the heap
unfoldable pub free : (address : ℕ) → List ℕ → Option (List ℕ)
free address [] = none
free address (a ∷ heap) =
    let rest = free address heap in
    if a == address then some heap else elim rest [ none ↦ none | some heap' ↦ some (a ∷ heap') ]

-- the buffer event of a socket, and the others
unfoldable pub take_fd : (fd : ℕ) → List Connection → Option (Connection × List Connection)
take_fd fd [] = none
take_fd fd (c ∷ connections) =
    let rest = take_fd fd connections in
    if c.fd == fd
    then some (c, connections)
    else elim rest [ none ↦ none | some (d, others) ↦ some (d, c ∷ others) ]

-- `free(arg)` unless it is NULL, and `bufferevent_free`, which leaves the other buffer events
unfoldable pub cb_event : (arg : ℕ) (others : List Connection) → Server → Option Server
unfolding free
cb_event arg others s =
    if arg == 0 then some (record s { connections = others }) else elim (free arg s.heap) [
      | none ↦ none
      | some heap ↦ some (record { connections = others; heap = heap })
    ]

-- `memcpy` to NULL and callbacks for a buffer event that is NULL are accesses outside memory.
unfoldable pub cb_listener : (fd address : ℕ) (made : Bool) → Server → Option Server
cb_listener fd address made s =
    if address == 0
    then none
    else if made
    then some (record {
      connections = record { fd = fd; arg = address } ∷ s.connections;
      heap = address ∷ s.heap;
    })
    else none

-- A callback: the blocks that are written, and the server after it. Libevent calls the last two for live buffer
-- events only.
unfoldable pub dispatch : Callback → Server → Option (List (ℕ × List ℕ) × Server)
unfolding cb_listener cb_read cb_event take_fd
dispatch (connects fd address made) s = elim (cb_listener fd address made s) [
  | none ↦ none
  | some t ↦ some ([], t)
]
dispatch (reads fd input) s = elim (take_fd fd s.connections) [
  | none ↦ some ([], s)
  | some (c, others) ↦ elim (cb_read input) [
    | none ↦ none
    | some block ↦ some ((fd, block) ∷ [], s)
  ]
]
dispatch (has_event fd) s = elim (take_fd fd s.connections) [
  | none ↦ some ([], s)
  | some (c, others) ↦ elim (cb_event c.arg others s) [ none ↦ none | some t ↦ some ([], t) ]
]

-- `event_base_dispatch` over so many callbacks
unfoldable pub dispatch_all : List Callback → Server → Option (List (ℕ × List ℕ) × Server)
unfolding dispatch
dispatch_all [] s = some ([], s)
dispatch_all (c ∷ callbacks) s = elim (dispatch c s) [
  | none ↦ none
  | some (blocks, t) ↦ elim (dispatch_all callbacks t) [
    | none ↦ none
    | some (more, u) ↦ some (blocks ++ more, u)
  ]
]
