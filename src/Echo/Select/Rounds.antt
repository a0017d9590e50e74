-- ===== src/Echo/Select/Rounds.antt =====
-- What the server on `select` does, without the buffer and the highest descriptor, and that it does so.
use linux_api_and_socket_pro.Common.{
  ℕ, zero, suc, ◌+◌, ◌-◌, ◌≤◌, ◌<◌, ◌≡◌, refl, sym, ◌∙◌, ◌≢◌, Bool, true, false, ◌&&◌, Option, none,
  some, List, [], ◌∷◌, ◌++◌, arith, ℕ_discrete, ltb, ◌==◌, if◌then◌else◌, ==_refl, ne_test, length,
  get_or, set, length-set, get_or-set_self, get_or-set_ne,
}
use linux_api_and_socket_pro.Echo.Buffer.{Answer, bytes, end, failed}
use linux_api_and_socket_pro.Echo.Buffer.Upper.{EndsInNul, echo_lem}
use linux_api_and_socket_pro.Echo.Poll.{buff_size, Call}
use linux_api_and_socket_pro.Echo.Poll.Calls.{IsShort, slot_calls, covers, covers-past}
use linux_api_and_socket_pro.Echo.Select.{
  set_size, Select, fd_clr, FdTurn, served, serve_ready, serve_reads, Round,
}

-- The set between two rounds.
pub record IsSound (lfd : ℕ) (s : Select) : Type 0 where
  pub size : length s.client_set ≡ set_size
  pub listener : get_or s.client_set lfd false ≡ true
  pub low : lfd ≤ s.max_fd
  pub in_range : s.max_fd < set_size
  pub unused : (j : ℕ) → s.max_fd < j → get_or s.client_set j false ≡ false
  pub nul : EndsInNul s.rev_buff
  pub room : length s.rev_buff ≡ buff_size

-- the calls for so many descriptors from `i` on
unfoldable pub fd_calls : (reads : ℕ → Bool) (answers : ℕ → Answer) (rounds i : ℕ) → List Call
fd_calls reads answers zero i = []
fd_calls reads answers (suc rounds) i =
    slot_calls (some i) (reads i) (answers i) ++ fd_calls reads answers rounds (i + 1)

-- a descriptor stays in the set unless its client has closed its side
abbrev pub stays : (read : Bool) → Answer → Bool → Bool
stays true end member = false
stays read answer member = member

-- `j` is the new client
abbrev pub is_new : Option ℕ → ℕ → Bool
is_new none j = false
is_new (some cfd) j = j == cfd

-- who is a member after the listener, when it is read, has accepted
abbrev pub joined : (read : Bool) → Option ℕ → (members : ℕ → Bool) → ℕ → Bool
joined read cfd members j = if read && is_new cfd j then true else members j

-- who is a member after a round, when `members` were before it
abbrev pub members_after : (lfd : ℕ) → Round → (members : ℕ → Bool) → ℕ → Bool
members_after lfd r members j =
    let member = joined (members lfd && r.ready lfd) r.cfd members j in
    if ltb lfd j then stays (members j && r.ready j) (r.answers j) member else member

-- Every member that is ready is answered, in the order of the descriptors, round for round.
unfoldable pub answered : (lfd : ℕ) → List Round → (members : ℕ → Bool) → List Call
answered lfd [] members = []
answered lfd (r ∷ rs) members =
    fd_calls (λ j. members j && r.ready j) r.answers (set_size - 1 - lfd) (lfd + 1)
    ++ answered lfd rs (members_after lfd r members)

unfoldable pub members_at_end : (lfd : ℕ) → List Round → (members : ℕ → Bool) → ℕ → Bool
members_at_end lfd [] members = members
members_at_end lfd (r ∷ rs) members = members_at_end lfd rs (members_after lfd r members)

-- what is asked of the clients and of `accept`
pub record IsFair (lfd : ℕ) (r : Round) : Type 0 where
  pub short : (j : ℕ) → IsShort (r.answers j)
  pub fits : r.ready lfd ≡ true → (cfd : ℕ) × (r.cfd ≡ some cfd) × (cfd < set_size)

-- What a turn for descriptor `i` leaves.
record Turned (lfd i : ℕ) (s : Select) (read : Bool) (answer : Answer) (t : FdTurn) : Type 0 where
  after : Select
  goes : t ≡ served (slot_calls (some i) read answer) after
  sound : IsSound lfd after
  same_max : after.max_fd ≡ s.max_fd
  own : get_or after.client_set i false ≡ stays read answer (get_or s.client_set i false)
  others : (j : ℕ) → j ≢ i → get_or after.client_set j false ≡ get_or s.client_set j false

turn_lem :
    (lfd i : ℕ) (s : Select) (read : Bool) (answer : Answer)
    → IsSound lfd s
    → lfd < i
    → i < set_size
    → IsShort answer
    → Turned lfd i s read answer (if read then serve_ready s i answer else served [] s)
unfolding serve_ready fd_clr
turn_lem lfd i s false answer h low high short = record {
  after = s;
  goes = refl;
  sound = h;
  same_max = refl;
  own = refl;
  others = λ j ne. refl;
}
turn_lem lfd i s true (bytes input) h low high short =
    let (b, e, nul, len) = echo_lem s.rev_buff input h.nul (omega (arith, short, h.room)) in
    record {
      after = record s { rev_buff = b };
      goes = rw (e, serve_ready) refl;
      sound = record {
        size = h.size;
        listener = h.listener;
        low = h.low;
        in_range = h.in_range;
        unused = h.unused;
        nul = nul;
        room = len ∙ h.room;
      };
      same_max = refl;
      own = refl;
      others = λ j ne. refl;
    }
turn_lem lfd i s true end h low high short = record {
  after = record s { client_set = set s.client_set i false };
  goes = refl;
  sound = record {
    size = length-set s.client_set i false ∙ h.size;
    listener =
        get_or-set_ne s.client_set i lfd false false (λ e. absurd (omega arith)) ∙ h.listener;
    low = h.low;
    in_range = h.in_range;
    unused = λ j above. elim (ℕ_discrete i j) [
      | yes e ↦ rw (sym e) cleared
      | no ne ↦ get_or-set_ne s.client_set i j false false ne ∙ h.unused j above
    ];
    nul = h.nul;
    room = h.room;
  };
  same_max = refl;
  own = cleared;
  others = λ j ne. get_or-set_ne s.client_set i j false false (λ e. ne (sym e));
}
  where
    cleared : get_or (set s.client_set i false) i false ≡ false
    cleared = get_or-set_self s.client_set i false false (omega (arith, high, h.size))
turn_lem lfd i s true (failed errno) h low high short = absurd short

pub serve_reads_lem :
    (reads : ℕ → Bool) (answers : ℕ → Answer) (lfd rounds i : ℕ) (s : Select)
    → IsSound lfd s
    → lfd < i
    → i + rounds ≤ set_size
    → ((j : ℕ) → IsShort (answers j))
    → (q : Select) × (serve_reads reads answers rounds i s
        ≡ some (fd_calls reads answers rounds i, q))
      × IsSound lfd q
      × ((j : ℕ)
          → get_or q.client_set j false ≡ (
              if covers rounds i j
              then stays (reads j) (answers j) (get_or s.client_set j false)
              else get_or s.client_set j false))
unfolding serve_reads fd_calls covers
serve_reads_lem reads answers lfd zero i s h low high short = (s, refl, h, λ j. refl)
serve_reads_lem reads answers lfd (suc rounds) i s h low high short =
    let turn = turn_lem lfd i s (reads i) (answers i) h low (omega arith) (short i) in
    let (q, e, sound, members) =
      serve_reads_lem reads answers lfd rounds (i + 1) turn.after turn.sound (omega arith)
        (omega arith) short in
    (
      q,
      rw (turn.goes, e, serve_reads) refl,
      sound,
      λ j. elim (ℕ_discrete j i) [
        | yes same ↦
            members j ∙ rw (covers-past rounds (i + 1) j (omega arith), same, ==_refl i) turn.own
        | no ne ↦ members j ∙ rw (turn.others j ne, ne_test j i ne) refl
      ],
    )
