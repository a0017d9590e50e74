-- ===== src/Echo/Poll/Rounds.antt =====
-- The main loop of the server on `poll` while its table has room.
use linux_api_and_socket_pro.Common.{
  ℕ, zero, suc, ◌+◌, ◌≤◌, ◌<◌, ◌≡◌, refl, sym, subst, ◌∙◌, inl, inr, Bool, true, false, ◌&&◌,
  Option, none, some, List, [], ◌∷◌, ◌++◌, arith, ltb, leb, if◌then◌else◌, Bool-cases, length,
  get_or, set, All, total,
}
use linux_api_and_socket_pro.Echo.Buffer.{Answer, bytes, end, failed}
use linux_api_and_socket_pro.Echo.Poll.{
  table_size, Poll, Call, add_client, poll_round, PollRound, poll_rounds,
}
use linux_api_and_socket_pro.Echo.Poll.Slots.{IsTable, HasRoom, add_client_lem}
use linux_api_and_socket_pro.Echo.Poll.Calls.{IsShort, slot_after}
use linux_api_and_socket_pro.Echo.Poll.Serve.{poll_round_lem}

-- a slot in use
abbrev pub in_use : Option ℕ → ℕ
in_use none = 0
in_use (some fd) = 1

in_use-set :
    (fds : List (Option ℕ)) (i : ℕ) (v : Option ℕ)
    → total in_use (set fds i v) ≤ total in_use fds + 1
unfolding total
in_use-set [] i v = omega arith
in_use-set (none ∷ fds) zero none = omega arith
in_use-set (some fd ∷ fds) zero none = omega arith
in_use-set (none ∷ fds) zero (some fd') = omega arith
in_use-set (some fd ∷ fds) zero (some fd') = omega arith
in_use-set (slot ∷ fds) (suc i) v = omega (arith, in_use-set fds i v)

in_use-le :
    (xs ys : List (Option ℕ))
    → length xs ≡ length ys
    → ((j : ℕ) → in_use (get_or xs j none) ≤ in_use (get_or ys j none))
    → total in_use xs ≤ total in_use ys
unfolding total
in_use-le [] [] len h = omega arith
in_use-le [] (y ∷ ys) len h = absurd (omega arith)
in_use-le (x ∷ xs) [] len h = absurd (omega arith)
in_use-le (x ∷ xs) (y ∷ ys) len h =
    omega (arith, h 0, in_use-le xs ys (omega arith) (λ j. h (suc j)))

-- a table that is not full has a free slot
record IsFree (fds : List (Option ℕ)) : Type 0 where
  slot : ℕ
  inside : slot < length fds
  free : get_or fds slot none ≡ none

in_use-IsFree : (fds : List (Option ℕ)) → total in_use fds < length fds → IsFree fds
unfolding total
in_use-IsFree [] h = absurd (omega arith)
in_use-IsFree (none ∷ fds) h = record { slot = 0; inside = omega arith; free = refl }
in_use-IsFree (some fd ∷ fds) h =
    let f = in_use-IsFree fds (omega arith) in
    record { slot = suc f.slot; inside = omega (arith, f.inside); free = f.free }

room_left :
    (lfd : ℕ) (p : Poll) → IsTable lfd p → total in_use p.client_fds < table_size → HasRoom p
room_left lfd p t h =
    let f = in_use-IsFree p.client_fds (omega (arith, h, t.size)) in
    (f.slot, not_first f.slot f.free, omega (arith, f.inside, t.size), f.free)
  where
    taken : some lfd ≡ none → ⊥
    taken e = cc

    not_first : (k : ℕ) → get_or p.client_fds k none ≡ none → 0 < k
    not_first zero e = absurd (taken (sym t.listener ∙ e))
    not_first (suc k) e = omega arith

slot_after-le :
    (slot : Option ℕ) (readable : Bool) (answer : Answer)
    → in_use (slot_after slot readable answer) ≤ in_use slot
slot_after-le none readable answer = omega arith
slot_after-le (some fd) false answer = omega arith
slot_after-le (some fd) true (bytes input) = omega arith
slot_after-le (some fd) true end = omega arith
slot_after-le (some fd) true (failed errno) = omega arith

-- a new client takes one slot at most
add_client-le :
    (lfd : ℕ) (p : Poll) (cfd : Option ℕ)
    → IsTable lfd p
    → HasRoom p
    → total in_use (add_client p cfd).client_fds ≤ total in_use p.client_fds + 1
add_client-le lfd p cfd t room =
    let (k, free, added, stands) = (add_client_lem lfd p cfd t room).1 in
    subst (λ fds. total in_use fds ≤ total in_use p.client_fds + 1) (sym added)
      (in_use-set p.client_fds k cfd)

-- A round uses up one slot at most.
poll_round-le :
    (r : PollRound) (lfd : ℕ) (p : Poll)
    → IsTable lfd p
    → HasRoom p
    → ((j : ℕ) → IsShort (r.answers j))
    → (calls : List Call) × (after : Poll) × (poll_round r.readable r.answers r.cfd p
        ≡ some (calls, after))
      × IsTable lfd after
      × (total in_use after.client_fds ≤ total in_use p.client_fds + 1)
poll_round-le r lfd p t room short =
    let (after, e, sound, slots) = poll_round_lem r.readable r.answers r.cfd lfd p t room short in
    (
      _,
      after,
      e,
      sound,
      omega (
        arith,
        joins (r.readable 0),
        in_use-le after.client_fds q.client_fds (sound.size ∙ sym (q_sound (r.readable 0)).size)
            (λ j.
              subst (λ slot. in_use slot ≤ in_use (get_or q.client_fds j none)) (sym (slots j))
                (by_test (leb 1 j && ltb j (1 + q.max_fd)) (get_or q.client_fds j none)
                  (r.readable j) (r.answers j))),
      ),
    )
  where
    q : Poll
    q = if r.readable 0 then add_client p r.cfd else p

    q_sound : (b : Bool) → IsTable lfd (if b then add_client p r.cfd else p)
    q_sound true = (add_client_lem lfd p r.cfd t room).0
    q_sound false = t

    joins :
        (b : Bool)
        → total in_use (if b then add_client p r.cfd else p).client_fds
          ≤ total in_use p.client_fds + 1
    joins true = add_client-le lfd p r.cfd t room
    joins false = omega arith

    by_test :
        (b : Bool) (slot : Option ℕ) (readable : Bool) (answer : Answer)
        → in_use (if b then slot_after slot readable answer else slot) ≤ in_use slot
    by_test true slot readable answer = slot_after-le slot readable answer
    by_test false slot readable answer = omega arith

poll_rounds-cons :
    (r : PollRound) (rounds : List PollRound) (p after last : Poll) (calls more : List Call)
    → r.polls ≡ true
    → poll_round r.readable r.answers r.cfd p ≡ some (calls, after)
    → poll_rounds rounds after ≡ some (more, last)
    → poll_rounds (r ∷ rounds) p ≡ some (calls ++ more, last)
unfolding poll_rounds
poll_rounds-cons r rounds p after last calls more polls e e' = rw (polls, e, e', poll_rounds) refl

-- From a sound table, such as the one at the start, and as long as the slots in use and the rounds together are at most
-- 1024, any rounds with reads that neither fail nor fill the buffer access no array outside its bounds, leave a sound
-- table, and use up one more slot each at most.
pub poll_rounds-le :
    (rounds : List PollRound) (lfd : ℕ) (p : Poll)
    → IsTable lfd p
    → All (λ r. (j : ℕ) → IsShort (r.answers j)) rounds
    → total in_use p.client_fds + length rounds ≤ table_size
    → (calls : List Call) × (after : Poll) × (poll_rounds rounds p ≡ some (calls, after))
      × IsTable lfd after
      × (total in_use after.client_fds ≤ total in_use p.client_fds + length rounds)
unfolding poll_rounds
poll_rounds-le [] lfd p t short fits = ([], p, refl, t, omega arith)
poll_rounds-le (r ∷ rounds) lfd p t short fits = elim (Bool-cases r.polls) [
  | inr fails ↦ ([], p, rw (fails, poll_rounds) refl, t, omega arith)
  | inl polls ↦
      let (calls, after, e, sound, few) =
        poll_round-le r lfd p t (room_left lfd p t (omega (arith, fits))) short.0 in
      let (more, last, e', sound', few') =
        poll_rounds-le rounds lfd after sound short.1 (omega (arith, few, fits)) in
      (
        calls ++ more,
        last,
        poll_rounds-cons r rounds p after last calls more polls e e',
        sound',
        omega (arith, few, few'),
      )
]
