-- ===== src/Echo/Poll/Serve.antt =====
-- The loop over the slots.
use linux_api_and_socket_pro.Common.{
  ℕ, zero, suc, ◌+◌, ◌≤◌, ◌<◌, ◌≡◌, refl, sym, ap, ◌∙◌, ◌≢◌, Bool, true, false, ◌&&◌, Option, none,
  some, List, [], arith, ℕ_discrete, ltb, leb, if◌then◌else◌, ==_refl, ne_test, get_or, set,
  length-set, get_or-set_self, get_or-set_ne,
}
use linux_api_and_socket_pro.Echo.Buffer.{Answer, bytes, end, failed}
use linux_api_and_socket_pro.Echo.Buffer.Upper.{echo_lem}
use linux_api_and_socket_pro.Echo.Poll.{
  table_size, Poll, Call, add_client, Turn, goes_on, serve_fd, serve_slot, serve_from, poll_round,
}
use linux_api_and_socket_pro.Echo.Poll.Slots.{IsTable, HasRoom, add_client_lem}
use linux_api_and_socket_pro.Echo.Poll.Calls.{
  IsShort, slot_calls, calls_from, calls_from-same, slot_after, covers, covers_lem, covers-past,
}

-- What a turn for slot `i` leaves: the slot as it is to be, the others as they were, and a sound table.
record Served (lfd i : ℕ) (p : Poll) (slot : Option ℕ) (calls : List Call) (t : Turn) : Type 0 where
  after : Poll
  goes : t ≡ goes_on calls after
  sound : IsTable lfd after
  own : get_or after.client_fds i none ≡ slot
  others : (j : ℕ) → j ≢ i → get_or after.client_fds j none ≡ get_or p.client_fds j none

serve_fd-Served :
    (lfd i fd : ℕ) (p : Poll) (answer : Answer)
    → IsTable lfd p
    → 0 < i
    → i < table_size
    → get_or p.client_fds i none ≡ some fd
    → IsShort answer
    → Served lfd i p
        (slot_after (some fd) true answer)
        (slot_calls (some fd) true answer)
        (serve_fd p i fd answer)
unfolding serve_fd
serve_fd-Served lfd i fd p (bytes input) t pos inside here short =
    let (b, e, nul, len) = echo_lem p.buff input t.nul (omega (arith, short, t.room)) in
    record {
      after = record p { buff = b };
      goes = rw (e, serve_fd) refl;
      sound = record {
        size = t.size;
        listener = t.listener;
        in_use = t.in_use;
        unused = t.unused;
        nul = nul;
        room = len ∙ t.room;
      };
      own = here;
      others = λ j ne. refl;
    }
serve_fd-Served lfd i fd p end t pos inside here short = record {
  after = record p { client_fds = set p.client_fds i none };
  goes = refl;
  sound = record {
    size = length-set p.client_fds i none ∙ t.size;
    listener = get_or-set_ne p.client_fds i 0 none none (λ e. absurd (omega arith)) ∙ t.listener;
    in_use = t.in_use;
    unused = λ j above. elim (ℕ_discrete i j) [
      | yes e ↦ rw (sym e) cleared
      | no ne ↦ get_or-set_ne p.client_fds i j none none ne ∙ t.unused j above
    ];
    nul = t.nul;
    room = t.room;
  };
  own = cleared;
  others = λ j ne. get_or-set_ne p.client_fds i j none none (λ e. ne (sym e));
}
  where
    cleared : get_or (set p.client_fds i none) i none ≡ none
    cleared = get_or-set_self p.client_fds i none none (omega (arith, inside, t.size))
serve_fd-Served lfd i fd p (failed errno) t pos inside here short = absurd short

serve_slot-Served :
    (readable : ℕ → Bool) (answers : ℕ → Answer) (lfd i : ℕ) (p : Poll)
    → IsTable lfd p
    → 0 < i
    → i < table_size
    → IsShort (answers i)
    → Served lfd i p
        (slot_after (get_or p.client_fds i none) (readable i) (answers i))
        (slot_calls (get_or p.client_fds i none) (readable i) (answers i))
        (serve_slot readable answers p i)
unfolding serve_slot
serve_slot-Served readable answers lfd i p t pos inside short =
    rw (within i inside, serve_slot) (by_slot (get_or p.client_fds i none) (readable i) refl)
  where
    within : (j : ℕ) → j < table_size → leb table_size j ≡ false
    within j h = ground arith

    unchanged :
        (slot : Option ℕ)
        → get_or p.client_fds i none ≡ slot
        → Served lfd i p slot [] (goes_on [] p)
    unchanged slot e = record { after = p; goes = refl; sound = t; own = e; others = λ j ne. refl }

    by_slot :
        (slot : Option ℕ) (r : Bool)
        → get_or p.client_fds i none ≡ slot
        → Served lfd i p
            (slot_after slot r (answers i))
            (slot_calls slot r (answers i))
            (elim slot [
              | none ↦ goes_on [] p
              | some fd ↦ if r then serve_fd p i fd (answers i) else goes_on [] p
            ])
    by_slot none r e = unchanged none e
    by_slot (some fd) false e = unchanged (some fd) e
    by_slot (some fd) true e = serve_fd-Served lfd i fd p (answers i) t pos inside e short

serve_from_lem :
    (readable : ℕ → Bool) (answers : ℕ → Answer) (lfd rounds i : ℕ) (p : Poll)
    → IsTable lfd p
    → 0 < i
    → i + rounds ≤ table_size
    → ((j : ℕ) → IsShort (answers j))
    → (q : Poll) × (serve_from readable answers rounds i p
        ≡ some (calls_from readable answers rounds i p.client_fds, q))
      × IsTable lfd q
      × ((j : ℕ)
          → get_or q.client_fds j none ≡ (
              if covers rounds i j
              then slot_after (get_or p.client_fds j none) (readable j) (answers j)
              else get_or p.client_fds j none))
unfolding serve_from calls_from covers
serve_from_lem readable answers lfd zero i p t pos inside short = (p, refl, t, λ j. refl)
serve_from_lem readable answers lfd (suc rounds) i p t pos inside short =
    let turn = serve_slot-Served readable answers lfd i p t pos (omega arith) (short i) in
    let (q, e, sound, slots) =
      serve_from_lem readable answers lfd rounds (i + 1) turn.after turn.sound (omega arith)
        (omega arith) short in
    (
      q,
      rw
          (
            turn.goes,
            e,
            calls_from-same readable answers rounds (i + 1) p.client_fds turn.after.client_fds
                (λ j low. turn.others j (λ same. absurd (omega arith))),
            serve_from,
          )
          refl,
      sound,
      λ j. elim (ℕ_discrete j i) [
        | yes same ↦
            slots j ∙ rw (covers-past rounds (i + 1) j (omega arith), same, ==_refl i) turn.own
        | no ne ↦ slots j ∙ rw (turn.others j ne, ne_test j i ne) refl
      ],
    )

-- A round with a free slot for a new client, and with reads that neither fail nor fill the buffer, accesses no array
-- outside its bounds and leaves a sound table. Each readable client gets its own bytes back in upper case up to the
-- first NUL, or is closed if it has closed its side, in the order of the slots; and every slot `j` is free after it
-- if its client was closed, and is as it was before the loop otherwise.
pub poll_round_lem :
    (readable : ℕ → Bool) (answers : ℕ → Answer) (cfd : Option ℕ) (lfd : ℕ) (p : Poll)
    → IsTable lfd p
    → HasRoom p
    → ((j : ℕ) → IsShort (answers j))
    → let q = if readable 0 then add_client p cfd else p in
      (after : Poll) × (poll_round readable answers cfd p
        ≡ some (calls_from readable answers q.max_fd 1 q.client_fds, after))
      × IsTable lfd after
      × ((j : ℕ)
          → get_or after.client_fds j none ≡ (
              if leb 1 j && ltb j (1 + q.max_fd)
              then slot_after (get_or q.client_fds j none) (readable j) (answers j)
              else get_or q.client_fds j none))
unfolding poll_round
poll_round_lem readable answers cfd lfd p t room short = serve q (sound (readable 0))
  where
    q : Poll
    q = if readable 0 then add_client p cfd else p

    sound : (new : Bool) → IsTable lfd (if new then add_client p cfd else p)
    sound true = (add_client_lem lfd p cfd t room).0
    sound false = t

    serve :
        (r : Poll)
        → IsTable lfd r
        → (after : Poll) × (serve_from readable answers r.max_fd 1 r
            ≡ some (calls_from readable answers r.max_fd 1 r.client_fds, after))
          × IsTable lfd after
          × ((j : ℕ)
              → get_or after.client_fds j none ≡ (
                  if leb 1 j && ltb j (1 + r.max_fd)
                  then slot_after (get_or r.client_fds j none) (readable j) (answers j)
                  else get_or r.client_fds j none))
    serve r u =
        let (after, e, v, slots) =
          serve_from_lem readable answers lfd r.max_fd 1 r u (omega arith) (omega (arith, u.in_use))
            short in
        (
          after,
          e,
          v,
          λ j.
              slots j
              ∙ ap
                  (λ b.
                    if b
                    then slot_after (get_or r.client_fds j none) (readable j) (answers j)
                    else get_or r.client_fds j none)
                  (covers_lem r.max_fd 1 j),
        )
