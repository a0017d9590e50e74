-- ===== src/Http/Epoll/Requests.antt =====
-- What a request line asks for, and how far a request is read.
use linux_api_and_socket_pro.Common.{
  ℕ, zero, suc, ◌+◌, ◌-◌, ◌≤◌, ◌<◌, ◌≡◌, refl, ◌≢◌, Option, some, List, [], ◌∷◌, ◌++◌, map, arith,
  ℕ_discrete, ne_test, length, All,
}
use linux_api_and_socket_pro.Http.Bytes.{cr, lf, blank, cstr}
use linux_api_and_socket_pro.Http.GetLine.{Socket, after_cr, get_line_loop, get_line}
use linux_api_and_socket_pro.Http.Reply.{max_buff_size}
use linux_api_and_socket_pro.Http.GetLine.Lines.{get_line_bounds}
use linux_api_and_socket_pro.Http.Epoll.{scan_word, scan_request, read_on}

-- a byte of a word: neither a blank nor NUL
abbrev pub IsWord : ℕ → Type 0
IsWord c = (c ≢ blank) × (c ≢ 0)

pub cstr_word : (w s : List ℕ) → All IsWord w → cstr (w ++ (blank ∷ s)) ≡ w ++ (blank ∷ cstr s)
unfolding cstr
cstr_word [] s h = refl
cstr_word (c ∷ w) s h = ground (arith, h.0, cstr_word w s h.1)

pub scan_word-append : (w s : List ℕ) → All IsWord w → scan_word (w ++ (blank ∷ s)) ≡ (w, blank ∷ s)
unfolding scan_word
scan_word-append [] s h = refl
scan_word-append (c ∷ w) s h = ground (arith, h.0, scan_word-append w s h.1)

slash-IsWord : (path : List ℕ) → All IsWord path → All IsWord (b'/' ∷ path)
slash-IsWord path p = ((omega arith, omega arith), p)

-- A request line of a method of at most 9 bytes, which is what its buffer holds besides the NUL, a blank, a
-- `/` with a path, a blank and any rest is scanned into the method and the path with its `/`.
pub scan_request_lem :
    (m : ℕ) (method path rest : List ℕ)
    → All IsWord (m ∷ method)
    → All IsWord path
    → length (m ∷ method) < 10
    → scan_request ((m ∷ method) ++ (blank ∷ ((b'/' ∷ path) ++ (blank ∷ rest))))
      ≡ (m ∷ method, b'/' ∷ path)
unfolding scan_request
scan_request_lem m method path rest hm hp short = ground (
  arith,
  cstr_word (m ∷ method) ((b'/' ∷ path) ++ (blank ∷ rest)) hm,
  cstr_word (b'/' ∷ path) rest (slash-IsWord path hp),
  scan_word-append (m ∷ method) ((b'/' ∷ path) ++ (blank ∷ cstr rest)) hm,
  scan_word-append (b'/' ∷ path) (cstr rest) (slash-IsWord path hp),
)

-- The bytes of a socket that will answer every read, then none.
abbrev pub all_there : List ℕ → Socket
all_there = map some

-- what a line leaves of a socket of bytes
record Rest (s : List ℕ) (read : List ℕ × Socket) : Type 0 where
  bytes : List ℕ
  same : read.1 ≡ all_there bytes
  used : length read.0 + length bytes ≤ length s

after_cr_there :
    (s : List ℕ) → (t : List ℕ) × (after_cr (all_there s) ≡ all_there t) × (length t ≤ length s)
unfolding after_cr
after_cr_there [] = ([], refl, omega arith)
after_cr_there (c ∷ s) = elim (ℕ_discrete c lf) [
  | yes e ↦ (s, rw e refl, omega arith)
  | no ne ↦ (c ∷ s, rw (ne_test c lf ne) refl, omega arith)
]

get_line_loop-Rest : (room : ℕ) (s : List ℕ) → Rest s (get_line_loop room (all_there s))
unfolding get_line_loop
get_line_loop-Rest zero s = record { bytes = s; same = refl; used = omega arith }
get_line_loop-Rest (suc room) [] = record { bytes = []; same = refl; used = omega arith }
get_line_loop-Rest (suc room) (c ∷ s) = elim (ℕ_discrete c cr) [
  | yes e ↦
      let (t, same, fewer) = after_cr_there s in
      rw e (record { bytes = t; same = same; used = omega arith })
  | no ne ↦ elim (ℕ_discrete c lf) [
    | yes e ↦ rw e (record { bytes = s; same = refl; used = omega arith })
    | no other ↦
        let r = get_line_loop-Rest room s in
        rw (ne_test c cr ne, ne_test c lf other)
          (record { bytes = r.bytes; same = r.same; used = omega (arith, r.used) })
  ]
]

get_line-Rest : (s : List ℕ) → Rest s (get_line max_buff_size (all_there s))
unfolding get_line
get_line-Rest s = get_line_loop-Rest (max_buff_size - 1) s

get_line_loop-cons-ne : (room c : ℕ) (s : Socket) → (get_line_loop (suc room) (some c ∷ s)).0 ≢ []
unfolding get_line_loop
get_line_loop-cons-ne room c s = elim (ℕ_discrete c cr) [
  | yes e ↦ rw e (λ h. cc)
  | no ne ↦ elim (ℕ_discrete c lf) [
    | yes e ↦ rw e (λ h. cc)
    | no other ↦ rw (ne_test c cr ne, ne_test c lf other) (λ h. cc)
  ]
]

get_line-cons-ne : (c : ℕ) (s : List ℕ) → (get_line max_buff_size (all_there (c ∷ s))).0 ≢ []
unfolding get_line
get_line-cons-ne c s = get_line_loop-cons-ne 1022 c (all_there s)

read_on-step :
    (fuel : ℕ) (s : List ℕ) (read : List ℕ × Socket)
    → Rest s read
    → length s < suc fuel
    → read.0 ≢ []
    → ((t : List ℕ) → length t < fuel → read_on fuel (all_there t) ≡ some [])
    → ◌≡◌ {A = Option Socket}
        (elim (read.0) [ [] ↦ some (read.1) | c ∷ cs ↦ read_on fuel (read.1) ])
        (some [])
read_on-step fuel s ([], s') r enough ne rec = absurd (ne refl)
read_on-step fuel s (d ∷ line, s') r enough ne rec =
    rw (r.same) (rec r.bytes (omega (arith, r.used)))

-- On a socket that answers every read the loop ends, with fuel for one line more than there are bytes, and
-- reads all of them: an empty line does not stop it.
pub read_on_all : (fuel : ℕ) (s : List ℕ) → length s < fuel → read_on fuel (all_there s) ≡ some []
unfolding read_on
read_on_all zero s enough = absurd (omega arith)
read_on_all (suc fuel) [] enough = unfold get_line in refl
read_on_all (suc fuel) (c ∷ s) enough =
    read_on-step fuel (c ∷ s) (get_line max_buff_size (all_there (c ∷ s))) (get_line-Rest (c ∷ s))
      enough (get_line-cons-ne c s) (read_on_all fuel)

read_on-end :
    (fuel : ℕ) (s : Socket) (read : List ℕ × Socket)
    → length read.0 + length read.1 ≤ length s
    → length s < suc fuel
    → ((t : Socket) → length t < fuel → (u : Socket) × (read_on fuel t ≡ some u))
    → (u : Socket) × (◌≡◌ {A = Option Socket}
        (elim (read.0) [ [] ↦ some (read.1) | c ∷ cs ↦ read_on fuel (read.1) ])
        (some u))
read_on-end fuel s ([], s') used enough rec = (s', refl)
read_on-end fuel s (d ∷ line, s') used enough rec = rec s' (omega arith)

-- Whatever the socket answers, the loop ends within as many lines as there are answers, and one more.
read_on_total : (fuel : ℕ) (s : Socket) → length s < fuel → (u : Socket) × (read_on fuel s ≡ some u)
unfolding read_on
read_on_total zero s enough = absurd (omega arith)
read_on_total (suc fuel) s enough =
    read_on-end fuel s (get_line max_buff_size s) (get_line_bounds max_buff_size s).2 enough
      (read_on_total fuel)
