-- ===== src/Echo/Poll/Slots.antt =====
-- The table of clients: what is added where.
use linux_api_and_socket_pro.Common.{
  ℕ, zero, suc, ◌+◌, ◌-◌, ◌≤◌, ◌<◌, ◌≡◌, refl, ap, ◌∙◌, ◌⊎◌, inl, inr, true, false, Option, none,
  some, List, [], ◌∷◌, arith, dec_lt, ℕ_discrete, Bool-cases, length, get_or, set, replicate,
  length-set, get_or-set_self, get_or-set_ne,
}
use linux_api_and_socket_pro.Echo.Buffer.Upper.{EndsInNul}
use linux_api_and_socket_pro.Echo.Poll.{
  table_size, buff_size, Poll, new_poll, is_free, find_free, larger, add_client,
}

-- Where the search stops: at a slot that is free, the first one, or behind the last.
pub record IsFound (fds : List (Option ℕ)) (rounds i found : ℕ) : Type 0 where
  pub low : i ≤ found
  pub high : found ≤ i + rounds
  pub free : found < i + rounds → get_or fds found none ≡ none
  pub taken : (j : ℕ) → i ≤ j → j < found → is_free (get_or fds j none) ≡ false

is_free_iff : (slot : Option ℕ) → is_free slot ≡ true → slot ≡ none
is_free_iff none h = refl
is_free_iff (some fd) h = cc

pub find_free-IsFound :
    (fds : List (Option ℕ)) (rounds i : ℕ) → IsFound fds rounds i (find_free fds rounds i)
unfolding find_free
find_free-IsFound fds zero i = record {
  low = omega arith;
  high = omega arith;
  free = λ h. absurd (omega arith);
  taken = λ j low high. absurd (omega arith);
}
find_free-IsFound fds (suc rounds) i = elim (Bool-cases (is_free (get_or fds i none))) [
  | inl free ↦ rw free (record {
    low = omega arith;
    high = omega arith;
    free = λ h. is_free_iff (get_or fds i none) free;
    taken = λ j low high. absurd (omega arith);
  })
  | inr used ↦
      let r = find_free-IsFound fds rounds (i + 1) in
      rw used (record {
        low = omega (arith, r.low);
        high = omega (arith, r.high);
        free = λ h. r.free (omega arith);
        taken = λ j low high. elim (ℕ_discrete j i) [
          | yes e ↦ rw e used
          | no ne ↦ r.taken j (omega arith) high
        ];
      })
]

pub larger_lem :
    (i m : ℕ) → (i ≤ larger i m) × (m ≤ larger i m) × ((larger i m ≡ i) ⊎ (larger i m ≡ m))
unfolding larger
larger_lem i m = ground arith

larger-below : (i m n : ℕ) → i < n → m < n → larger i m < n
unfolding larger
larger-below i m n hi hm = ground arith

-- The table between two rounds.
pub record IsTable (lfd : ℕ) (p : Poll) : Type 0 where
  pub size : length p.client_fds ≡ table_size
  pub listener : get_or p.client_fds 0 none ≡ some lfd
  pub in_use : p.max_fd < table_size
  pub unused : (j : ℕ) → p.max_fd < j → get_or p.client_fds j none ≡ none
  pub nul : EndsInNul p.buff
  pub room : length p.buff ≡ buff_size

abbrev pub HasRoom : Poll → Type 0
HasRoom p = (k : ℕ) × (0 < k) × (k < table_size) × (get_or p.client_fds k none ≡ none)

free_and_taken : (slot : Option ℕ) → slot ≡ none → is_free slot ≡ false → ⊥
free_and_taken none e h = cc
free_and_taken (some fd) e h = cc

pub set_past : (xs : List (Option ℕ)) (i : ℕ) (v : Option ℕ) → length xs ≤ i → set xs i v ≡ xs
set_past [] i v h = refl
set_past (x ∷ xs) zero v h = absurd (omega arith)
set_past (x ∷ xs) (suc i) v h = ap (λ l. x ∷ l) (set_past xs i v (omega arith))

-- A table with a free slot stays sound, and keeps every client, when one is added: it stands in the first free
-- slot.
pub add_client_lem :
    (lfd : ℕ) (p : Poll) (cfd : Option ℕ)
    → IsTable lfd p
    → HasRoom p
    → IsTable lfd (add_client p cfd)
      × ((k : ℕ) × (get_or p.client_fds k none ≡ none)
          × ((add_client p cfd).client_fds ≡ set p.client_fds k cfd)
          × (get_or (add_client p cfd).client_fds k none ≡ cfd))
unfolding add_client
add_client_lem lfd p cfd t (k, pos, small, free) = (
  record {
    size = length-set p.client_fds i cfd ∙ t.size;
    listener =
        get_or-set_ne p.client_fds i 0 cfd none (λ e. absurd (omega (arith, f.low))) ∙ t.listener;
    in_use = larger-below i p.max_fd table_size inside t.in_use;
    unused = λ j above.
        get_or-set_ne p.client_fds i j cfd none
          (λ e. absurd (omega (arith, (larger_lem i p.max_fd).0, above, e)))
        ∙ t.unused j (omega (arith, (larger_lem i p.max_fd).1, above));
    nul = t.nul;
    room = t.room;
  },
  (
    i,
    f.free (omega (arith, inside)),
    refl,
    get_or-set_self p.client_fds i cfd none (omega (arith, inside, t.size)),
  ),
)
  where
    i : ℕ
    i = find_free p.client_fds (table_size - 1) 1

    f : IsFound p.client_fds (table_size - 1) 1 i
    f = find_free-IsFound p.client_fds (table_size - 1) 1

    inside : i < table_size
    inside = elim (dec_lt i table_size) [
      | yes h ↦ h
      | no h ↦ absurd (
          free_and_taken (get_or p.client_fds k none) free
            (f.taken k (omega arith) (omega (arith, h))))
    ]

-- In a full table nothing is stored for a new client, whose descriptor is lost, and `max_fd` becomes the number of
-- slots, so that the loop over the slots leaves the table.
pub add_client_full :
    (lfd : ℕ) (p : Poll) (cfd : Option ℕ)
    → IsTable lfd p
    → ((k : ℕ) → 0 < k → k < table_size → is_free (get_or p.client_fds k none) ≡ false)
    → ((add_client p cfd).client_fds ≡ p.client_fds) × ((add_client p cfd).max_fd ≡ table_size)
unfolding add_client
add_client_full lfd p cfd t full = (
  set_past p.client_fds i cfd (omega (arith, outside, t.size)),
  elim ((larger_lem i p.max_fd).2) [
    | inl e ↦ e ∙ outside
    | inr e ↦ absurd (omega (arith, e, (larger_lem i p.max_fd).0, outside, t.in_use))
  ],
)
  where
    i : ℕ
    i = find_free p.client_fds (table_size - 1) 1

    f : IsFound p.client_fds (table_size - 1) 1 i
    f = find_free-IsFound p.client_fds (table_size - 1) 1

    outside : i ≡ table_size
    outside = elim (dec_lt i table_size) [
      | yes h ↦ absurd (
          free_and_taken (get_or p.client_fds i none) (f.free (omega arith))
            (full i (omega (arith, f.low)) h))
      | no h ↦ omega (arith, h, f.high)
    ]

pub get_or-replicate :
    (n j : ℕ) (v : Option ℕ)
    → (j < n → get_or (replicate n v) j none ≡ v)
      × (get_or {A = Option ℕ} (replicate n none) j none ≡ none)
get_or-replicate zero j v = (λ h. absurd (omega arith), refl)
get_or-replicate (suc n) zero v = (λ h. refl, refl)
get_or-replicate (suc n) (suc j) v =
    (λ h. (get_or-replicate n j v).0 (omega arith), (get_or-replicate n j v).1)

pub new_poll-IsTable : (lfd : ℕ) → IsTable lfd (new_poll lfd)
unfolding new_poll EndsInNul
new_poll-IsTable lfd = record {
  size = refl;
  listener = refl;
  in_use = omega arith;
  unused = behind;
  nul = refl;
  room = refl;
}
  where
    behind : (j : ℕ) → 0 < j → get_or {A = Option ℕ} (some lfd ∷ replicate 1023 none) j none ≡ none
    behind zero h = absurd (omega arith)
    behind (suc j) h = (get_or-replicate 1023 j none).1
