-- ===== src/Echo/Select/Refines.antt =====
-- The server on `select` answers every ready client, in any number of rounds.
use linux_api_and_socket_pro.Common.{
  ℕ, zero, suc, ◌+◌, ◌-◌, ◌≤◌, ◌<◌, ◌≡◌, refl, sym, ap, ◌∙◌, inl, inr, Bool, true, false, ◌&&◌,
  Option, some, List, [], ◌∷◌, ◌++◌, arith, dec_lt, ltb, leb, if◌then◌else◌, Bool-cases, get_or,
  All,
}
use linux_api_and_socket_pro.Echo.Buffer.{Answer}
use linux_api_and_socket_pro.Echo.Poll.Calls.{slot_calls, covers_lem}
use linux_api_and_socket_pro.Echo.Select.{
  set_size, Select, fd_isset, accept_fd, select_round, Round, select_rounds,
}
use linux_api_and_socket_pro.Echo.Select.Rounds.{
  IsSound, fd_calls, stays, is_new, joined, members_after, answered, members_at_end, IsFair,
  serve_reads_lem,
}
use linux_api_and_socket_pro.Echo.Select.Accept.{Holds, Accepted, accept_lem}

-- descriptors that are not read lead to nothing
fd_calls-none :
    (reads : ℕ → Bool) (answers : ℕ → Answer) (rounds i : ℕ)
    → ((j : ℕ) → i ≤ j → reads j ≡ false)
    → fd_calls reads answers rounds i ≡ []
unfolding fd_calls
fd_calls-none reads answers zero i h = refl
fd_calls-none reads answers (suc rounds) i h =
    rw (h i (omega arith), fd_calls-none reads answers rounds (i + 1) (λ j low. h j (omega arith)))
      refl

fd_calls-fewer :
    (reads : ℕ → Bool) (answers : ℕ → Answer) (rounds fewer i : ℕ)
    → fewer ≤ rounds
    → ((j : ℕ) → i + fewer ≤ j → reads j ≡ false)
    → fd_calls reads answers fewer i ≡ fd_calls reads answers rounds i
unfolding fd_calls
fd_calls-fewer reads answers rounds zero i fits h =
    sym (fd_calls-none reads answers rounds i (λ j low. h j (omega arith)))
fd_calls-fewer reads answers zero (suc fewer) i fits h = absurd (omega arith)
fd_calls-fewer reads answers (suc rounds) (suc fewer) i fits h =
    ap (λ l. slot_calls (some i) (reads i) (answers i) ++ l)
      (fd_calls-fewer reads answers rounds fewer (i + 1) (omega arith) (λ j low. h j (omega arith)))

fd_calls-same :
    (reads reads' : ℕ → Bool) (answers : ℕ → Answer) (rounds i : ℕ)
    → ((j : ℕ) → reads j ≡ reads' j)
    → fd_calls reads answers rounds i ≡ fd_calls reads' answers rounds i
unfolding fd_calls
fd_calls-same reads reads' answers zero i h = refl
fd_calls-same reads reads' answers (suc rounds) i h =
    rw (h i, fd_calls-same reads reads' answers rounds (i + 1) h) refl

joined-none :
    (read : Bool) (cfd : Option ℕ) (members : ℕ → Bool) (j : ℕ)
    → joined read cfd members j ≡ false
    → members j ≡ false
joined-none read cfd members j h = elim (Bool-cases (read && is_new cfd j)) [
  | inl e ↦ cc
  | inr e ↦ cc
]

and_right : (a b : Bool) → a && b ≡ true → b ≡ true
and_right true b h = h
and_right false b h = cc

-- what the turns leave, with the test that the loop makes and with the one that the description makes
stays_lem :
    (lfd max j : ℕ) (read : Bool) (answer : Answer) (member : Bool)
    → (max < j → read ≡ false)
    → (if leb (lfd + 1) j && ltb j (lfd + 1 + (max - lfd))
        then stays read answer member
        else member)
      ≡ (if ltb lfd j then stays read answer member else member)
stays_lem lfd max j read answer member h = elim (dec_lt lfd j) [
  | no small ↦ rw (not_above small, not_above' small) refl
  | yes big ↦ elim (dec_lt max j) [
    | no inside ↦ rw (within big inside, above big) refl
    | yes past ↦ rw (h past) (constant _ _)
  ]
]
  where
    not_above : ¬ (lfd < j) → leb (lfd + 1) j ≡ false
    not_above h = ground arith

    not_above' : ¬ (lfd < j) → ltb lfd j ≡ false
    not_above' h = ground arith

    above : lfd < j → ltb lfd j ≡ true
    above h = ground arith

    within : lfd < j → ¬ (max < j) → (leb (lfd + 1) j && ltb j (lfd + 1 + (max - lfd))) ≡ true
    within low high = ground arith

    constant : (b c : Bool) → (if b then member else member) ≡ (if c then member else member)
    constant true true = refl
    constant true false = refl
    constant false true = refl
    constant false false = refl

pub select_round_lem :
    (lfd : ℕ) (r : Round) (s : Select) (members : ℕ → Bool)
    → IsSound lfd s
    → Holds s members
    → IsFair lfd r
    → (q : Select) × (select_round lfd r.ready r.answers r.cfd s
        ≡ some (fd_calls (λ j. members j && r.ready j) r.answers (set_size - 1 - lfd) (lfd + 1), q))
      × IsSound lfd q
      × Holds q (members_after lfd r members)
unfolding select_round fd_isset
select_round_lem lfd r s members h holds fair =
    let (q, e, sound, slots) =
      serve_reads_lem reads r.answers lfd (a.after.max_fd - lfd) (lfd + 1) a.after a.sound
        (omega arith) (omega (arith, a.sound.in_range, a.sound.low)) fair.short in
    (
      q,
      rw (a.found, select_round) (e ∙ ap (λ calls. some (calls, q)) same_calls),
      sound,
      λ j.
          slots j
          ∙ ap
              (λ b.
                if b
                then stays (reads j) (r.answers j) (get_or a.after.client_set j false)
                else get_or a.after.client_set j false)
              (covers_lem (a.after.max_fd - lfd) (lfd + 1) j)
          ∙ stays_lem lfd a.after.max_fd j (reads j) (r.answers j)
              (get_or a.after.client_set j false) (past j)
          ∙ rw (a.members j, holds j, holds lfd) refl,
    )
  where
    reads : ℕ → Bool
    reads i = get_or s.client_set i false && r.ready i

    a : Accepted lfd (reads lfd) r.cfd s (if reads lfd then accept_fd r.cfd s else some s)
    a =
        accept_lem lfd (reads lfd) r.cfd s h
          (λ e. fair.fits (and_right (get_or s.client_set lfd false) (r.ready lfd) e))

    past : (j : ℕ) → a.after.max_fd < j → reads j ≡ false
    past j above =
        rw
          (joined-none (reads lfd) r.cfd (λ k. get_or s.client_set k false) j
            (sym (a.members j) ∙ a.sound.unused j above))
          refl

    same_calls :
        fd_calls reads r.answers (a.after.max_fd - lfd) (lfd + 1)
        ≡ fd_calls (λ j. members j && r.ready j) r.answers (set_size - 1 - lfd) (lfd + 1)
    same_calls =
        fd_calls-fewer reads r.answers (set_size - 1 - lfd) (a.after.max_fd - lfd) (lfd + 1)
          (omega (arith, a.sound.in_range)) (λ j low. past j (omega (arith, low, a.sound.low)))
        ∙ fd_calls-same reads (λ j. members j && r.ready j) r.answers (set_size - 1 - lfd) (lfd + 1)
            (λ j. ap (λ b. b && r.ready j) (holds j))

-- With clients whose reads neither fail nor fill the buffer, and with new descriptors below FD_SETSIZE, any rounds
-- of the server access nothing outside its set and buffer and leave a sound set; the calls they make, and the members
-- that they leave, are those of a server that goes over all descriptors up to FD_SETSIZE and keeps no buffer.
pub select_rounds_lem :
    (lfd : ℕ) (rs : List Round) (s : Select) (members : ℕ → Bool)
    → IsSound lfd s
    → Holds s members
    → All (IsFair lfd) rs
    → (q : Select) × (select_rounds lfd rs s ≡ some (answered lfd rs members, q))
      × IsSound lfd q
      × Holds q (members_at_end lfd rs members)
unfolding select_rounds answered members_at_end
select_rounds_lem lfd [] s members h holds fair = (s, refl, h, holds)
select_rounds_lem lfd (r ∷ rs) s members h holds (f, fs) =
    let (after, e, sound, holds') = select_round_lem lfd r s members h holds f in
    let (q, e', sound', holds'') =
      select_rounds_lem lfd rs after (members_after lfd r members) sound holds' fs in
    (q, rw (select_rounds, e, e', answered) refl, sound', holds'')
