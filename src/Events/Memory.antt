-- ===== src/Events/Memory.antt =====
-- What the server on libevent holds for its connections, and what it writes to them.
use linux_api_and_socket_pro.Common.{
  ℕ, ◌+◌, ◌<◌, ◌≡◌, refl, sym, ap, subst, ◌∙◌, ◌≢◌, ◌⊎◌, inl, inr, true, none, some, List, [], ◌∷◌,
  arith, ℕ_discrete, ◌==◌, if◌then◌else◌, ==_refl, ne_test, length, All, total,
}
use linux_api_and_socket_pro.Events.Blocks.{block_for, cb_read_lem}
use linux_api_and_socket_pro.Events.{
  Connection, Server, start, Callback, connects, reads, has_event, free, take_fd, cb_event,
  cb_listener, dispatch, dispatch_all,
}

abbrev pub is_address : (a x : ℕ) → ℕ
is_address a x = if x == a then 1 else 0

-- how often an address is on the heap, and how often it is the `arg` of a buffer event
abbrev pub held : ℕ → List ℕ → ℕ
held a heap = total (is_address a) heap

abbrev pub owned : ℕ → List Connection → ℕ
owned a connections = total (λ c. is_address a c.arg) connections

-- Each buffer event has an address of its own, and nothing else is on the heap.
pub record IsOwned (s : Server) : Type 0 where
  pub balance : (a : ℕ) → held a s.heap ≡ owned a s.connections
  pub not_null : owned 0 s.connections ≡ 0

-- what is asked of `malloc`, of libevent and of the clients
abbrev pub IsMade : Callback → Type 0
IsMade (connects fd address made) = (address ≢ 0) × (made ≡ true)
IsMade (reads fd input) = length input < 1024
IsMade (has_event fd) = Unit

-- the blocks that are written, to those that are connected
unfoldable pub blocks : List Callback → List Connection → List (ℕ × List ℕ)
unfolding take_fd
blocks [] connections = []
blocks (connects fd address made ∷ callbacks) connections =
    blocks callbacks (record { fd = fd; arg = address } ∷ connections)
blocks (reads fd input ∷ callbacks) connections =
    let rest = blocks callbacks connections in
    elim (take_fd fd connections) [ none ↦ rest | some _ ↦ (fd, block_for input) ∷ rest ]
blocks (has_event fd ∷ callbacks) connections = elim (take_fd fd connections) [
  | none ↦ blocks callbacks connections
  | some (c, others) ↦ blocks callbacks others
]

-- a buffer event is found, and is taken off, or none is
record IsTaken (fd : ℕ) (connections : List Connection) : Type 0 where
  taken : Connection
  others : List Connection
  found : take_fd fd connections ≡ some (taken, others)
  balance : (a : ℕ) → owned a connections ≡ is_address a taken.arg + owned a others

take_fd_lem :
    (fd : ℕ) (connections : List Connection)
    → (take_fd fd connections ≡ none) ⊎ IsTaken fd connections
unfolding take_fd total
take_fd_lem fd [] = inl refl
take_fd_lem fd (d ∷ connections) = elim (ℕ_discrete d.fd fd) [
  | yes e ↦ inr (record {
    taken = d;
    others = connections;
    found = rw (e, ==_refl fd) refl;
    balance = λ a. refl;
  })
  | no ne ↦ elim (take_fd_lem fd connections) [
    | inl e ↦ inl (rw (ne_test d.fd fd ne, e) refl)
    | inr t ↦ inr (record {
      taken = t.taken;
      others = d ∷ t.others;
      found = rw (ne_test d.fd fd ne, t.found) refl;
      balance = λ a. omega (arith, t.balance a);
    })
  ]
]

held-ne :
    (address x : ℕ) (heap : List ℕ) → x ≢ address → held address (x ∷ heap) ≡ held address heap
unfolding total
held-ne address x heap ne = rw (ne_test x address ne) (omega arith)

-- an address that is on the heap can be freed
record IsFreed (address : ℕ) (heap : List ℕ) : Type 0 where
  rest : List ℕ
  found : free address heap ≡ some rest
  balance : (a : ℕ) → held a heap ≡ is_address a address + held a rest

free_lem : (address : ℕ) (heap : List ℕ) → 0 < held address heap → IsFreed address heap
unfolding free total
free_lem address [] h = absurd (omega arith)
free_lem address (x ∷ heap) h = elim (ℕ_discrete x address) [
  | yes e ↦ record { rest = heap; found = rw (e, ==_refl address) refl; balance = λ a. rw e refl }
  | no ne ↦
      let t = free_lem address heap (subst (λ n. 0 < n) (held-ne address x heap ne) h) in
      record {
        rest = x ∷ t.rest;
        found = rw (ne_test x address ne, t.found) refl;
        balance = λ a. omega (arith, t.balance a);
      }
]

is_address_self : (a : ℕ) → is_address a a ≡ 1
is_address_self a = rw (==_refl a) refl

-- an address that counts is the address
is_address_ne : (a x : ℕ) → is_address a x ≡ 0 → x ≢ a
is_address_ne a x h e =
    absurd (omega (arith, sym (subst (λ y. is_address a y ≡ 1) (sym e) (is_address_self a)) ∙ h))

-- The callback for an event of a live buffer event frees its address, and no other.
cb_event_lem :
    (s : Server) (fd : ℕ)
    → IsOwned s
    → (t : IsTaken fd s.connections)
    → (heap : List ℕ) × (cb_event t.taken.arg t.others s
        ≡ some (record { connections = t.others; heap = heap }))
      × IsOwned (record { connections = t.others; heap = heap })
unfolding cb_event
cb_event_lem s fd h t =
    let freed = free_lem t.taken.arg s.heap on_heap in
    (
      freed.rest,
      rw (ne_test t.taken.arg 0 not_null, freed.found, cb_event) refl,
      record {
        balance = λ a. omega (arith, freed.balance a, t.balance a, h.balance a);
        not_null = omega (arith, t.balance 0, h.not_null);
      },
    )
  where
    on_heap : 0 < held t.taken.arg s.heap
    on_heap =
        omega (arith, h.balance t.taken.arg, t.balance t.taken.arg, is_address_self t.taken.arg)

    not_null : t.taken.arg ≢ 0
    not_null = is_address_ne 0 t.taken.arg (omega (arith, t.balance 0, h.not_null))

abbrev joined : (fd address : ℕ) → Server → Server
joined fd address s = record {
  connections = record { fd = fd; arg = address } ∷ s.connections;
  heap = address ∷ s.heap;
}

joined-IsOwned :
    (fd address : ℕ) (s : Server) → IsOwned s → address ≢ 0 → IsOwned (joined fd address s)
unfolding total
joined-IsOwned fd address s h ne = record {
  balance = λ a. ap (λ n. is_address a address + n) (h.balance a);
  not_null = rw (ne_test address 0 ne) (omega (arith, h.not_null));
}

pub start-IsOwned : IsOwned start
unfolding total
start-IsOwned = record { balance = λ a. refl; not_null = refl }

-- From a server whose buffer events each have an address of their own and that has nothing else on the heap, such as
-- the one at the start, any callbacks with what `malloc` and libevent succeed in, and with reads of less than 1024
-- bytes, free no address twice and access nothing outside the buffer; each read is answered in upper case up to its
-- first NUL, with one NUL behind it; and again each live buffer event has an address, and nothing else is on the heap.
pub dispatch_all_lem :
    (callbacks : List Callback) (s : Server)
    → IsOwned s
    → All IsMade callbacks
    → (t : Server) × (dispatch_all callbacks s ≡ some (blocks callbacks s.connections, t))
      × IsOwned t
unfolding dispatch_all dispatch cb_listener blocks
dispatch_all_lem [] s h ok = (s, refl, h)
dispatch_all_lem (connects fd address made ∷ callbacks) s h ok =
    let (t, e, h') =
      dispatch_all_lem callbacks (joined fd address s) (joined-IsOwned fd address s h ok.0.0)
        ok.1 in
    (t, rw (ne_test address 0 ok.0.0, ok.0.1, e, dispatch_all, blocks) refl, h')
dispatch_all_lem (reads fd input ∷ callbacks) s h ok =
    let (t, e, h') = dispatch_all_lem callbacks s h ok.1 in
    elim (take_fd_lem fd s.connections) [
      | inl gone ↦ (t, rw (gone, e, dispatch_all, blocks) refl, h')
      | inr live ↦ (t, rw (live.found, cb_read_lem input ok.0, e, dispatch_all, blocks) refl, h')
    ]
dispatch_all_lem (has_event fd ∷ callbacks) s h ok = elim (take_fd_lem fd s.connections) [
  | inl gone ↦
      let (t, e, h') = dispatch_all_lem callbacks s h ok.1 in
      (t, rw (gone, e, dispatch_all, blocks) refl, h')
  | inr live ↦
      let (heap, freed, kept) = cb_event_lem s fd h live in
      let (t, e, h') =
        dispatch_all_lem callbacks (record { connections = live.others; heap = heap }) kept ok.1 in
      (t, rw (live.found, freed, e, dispatch_all, blocks) refl, h')
]
