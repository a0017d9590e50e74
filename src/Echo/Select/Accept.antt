-- ===== src/Echo/Select/Accept.antt =====
-- What a new client does to the set of the server on `select`, and the set before the loop.
use linux_api_and_socket_pro.Common.{
  ℕ, zero, suc, ◌≤◌, ◌<◌, ◌≡◌, refl, sym, ◌∙◌, Bool, true, false, Option, some, List, arith,
  ℕ_discrete, ltb, ◌==◌, if◌then◌else◌, ==_refl, ne_test, get_or, set, replicate, length-set,
  get_or-set_self, get_or-set_ne,
}
use linux_api_and_socket_pro.Echo.Buffer.Upper.{EndsInNul}
use linux_api_and_socket_pro.Echo.Select.{set_size, Select, fd_set, new_select, accept_fd}
use linux_api_and_socket_pro.Echo.Select.Rounds.{IsSound, joined}

-- the set holds just these members
abbrev pub Holds : Select → (ℕ → Bool) → Type 0
Holds s members = (j : ℕ) → get_or s.client_set j false ≡ members j

-- `cfd > max_fd ? cfd : max_fd`
abbrev max_of : ℕ → ℕ → ℕ
max_of max_fd cfd = if ltb max_fd cfd then cfd else max_fd

max_of_lem : (m c : ℕ) → (m ≤ max_of m c) × (c ≤ max_of m c)
max_of_lem m c = ground arith

max_of-below : (m c n : ℕ) → m < n → c < n → max_of m c < n
max_of-below m c n hm hc = ground arith

-- After a client has been accepted, or not.
pub record Accepted (lfd : ℕ) (read : Bool) (cfd : Option ℕ) (s : Select) (o : Option Select)
    : Type 0 where
  pub after : Select
  pub found : o ≡ some after
  pub sound : IsSound lfd after
  pub members :
      (j : ℕ)
      → get_or after.client_set j false ≡ joined read cfd (λ k. get_or s.client_set k false) j

pub accept_lem :
    (lfd : ℕ) (read : Bool) (cfd : Option ℕ) (s : Select)
    → IsSound lfd s
    → (read ≡ true → (c : ℕ) × (cfd ≡ some c) × (c < set_size))
    → Accepted lfd read cfd s (if read then accept_fd cfd s else some s)
unfolding accept_fd fd_set
accept_lem lfd false cfd s h fits = record {
  after = s;
  found = refl;
  sound = h;
  members = λ j. refl;
}
accept_lem lfd true cfd s h fits = let (c, e, small) = fits refl in rw e (joins c small)
  where
    below : (c : ℕ) → c < set_size → ltb c set_size ≡ true
    below c small = ground arith

    set_bit :
        (c : ℕ)
        → c < set_size
        → (j : ℕ)
        → get_or (set s.client_set c true) j false
          ≡ joined true (some c) (λ k. get_or s.client_set k false) j
    set_bit c small j = elim (ℕ_discrete j c) [
      | yes e ↦
          rw (e, ==_refl c)
            (get_or-set_self s.client_set c true false (omega (arith, small, h.size)))
      | no ne ↦ rw (ne_test j c ne) (get_or-set_ne s.client_set c j true false (λ e. ne (sym e)))
    ]

    joins : (c : ℕ) → c < set_size → Accepted lfd true (some c) s (accept_fd (some c) s)
    joins c small = record {
      after = record s { client_set = set s.client_set c true; max_fd = max_of s.max_fd c };
      found = rw (below c small, accept_fd) refl;
      sound = record {
        size = length-set s.client_set c true ∙ h.size;
        listener = elim (ℕ_discrete lfd c) [
          | yes e ↦ set_bit c small lfd ∙ rw (e, ==_refl c) refl
          | no ne ↦ set_bit c small lfd ∙ rw (ne_test lfd c ne) h.listener
        ];
        low = omega (arith, h.low, (max_of_lem s.max_fd c).0);
        in_range = max_of-below s.max_fd c set_size h.in_range small;
        unused = λ j above.
            set_bit c small j
            ∙ rw (ne_test j c (λ e. absurd (omega (arith, e, above, (max_of_lem s.max_fd c).1))))
                (h.unused j (omega (arith, above, (max_of_lem s.max_fd c).0)));
        nul = h.nul;
        room = h.room;
      };
      members = set_bit c small;
    }

all_unset : (n j : ℕ) → get_or (replicate n false) j false ≡ false
all_unset zero j = refl
all_unset (suc n) zero = refl
all_unset (suc n) (suc j) = all_unset n j

abbrev pub started : (lfd : ℕ) → Select
started lfd = record {
  client_set = set (replicate set_size false) lfd true;
  max_fd = lfd;
  rev_buff = replicate 512 0;
}

pub new_select-IsSound :
    (lfd : ℕ)
    → lfd < set_size
    → (new_select lfd ≡ some (started lfd))
      × (IsSound lfd (started lfd) × Holds (started lfd) (λ j. j == lfd))
unfolding new_select fd_set EndsInNul
new_select-IsSound lfd small = (
  rw (below lfd small, new_select) refl,
  (
    record {
      size = length-set (replicate set_size false) lfd true ∙ refl;
      listener = get_or-set_self (replicate set_size false) lfd true false small;
      low = omega arith;
      in_range = small;
      unused = λ j above. holds j ∙ ne_test j lfd (λ e. absurd (omega arith));
      nul = refl;
      room = refl;
    },
    holds,
  ),
)
  where
    bits : List Bool
    bits = set (replicate set_size false) lfd true

    below : (c : ℕ) → c < set_size → ltb c set_size ≡ true
    below c small = ground arith

    holds : (j : ℕ) → get_or bits j false ≡ (j == lfd)
    holds j = elim (ℕ_discrete j lfd) [
      | yes e ↦
          rw (e, ==_refl lfd) (get_or-set_self (replicate set_size false) lfd true false small)
      | no ne ↦ rw (ne_test j lfd ne) (
          get_or-set_ne (replicate set_size false) lfd j true false (λ e. ne (sym e))
          ∙ all_unset set_size j)
    ]
