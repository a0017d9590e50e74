-- ===== src/Echo/Buffer.antt =====
-- The buffer of the echo servers, which keeps its contents from one read to the next, and the loop that turns it
-- to upper case up to the first NUL; as in select_poll_epoll/epoll_server2.c.
pub mod Upper
use linux_api_and_socket_pro.Common.{
  ℕ, zero, suc, ◌+◌, ◌-◌, ◌*◌, ◌/◌, ◌%◌, ◌^◌, ◌≤◌, ◌<◌, min, ◌≡◌, refl, sym, ap, ap₂, subst, ◌∙◌,
  ◌≢◌, ◌↔◌, ◌⊎◌, inl, inr, Bool, true, false, not, ◌&&◌, ◌||◌, Option, none, some, List, [], ◌∷◌,
  ◌++◌, map, append-nil, append_assoc, arith, dec_lt, dec_le, ℕ_discrete, ltb, leb, ◌==◌,
  if◌then◌else◌, ==_iff, ==_refl, ne_test, Bool-cases, Option-cases, codes, length, get_or, set,
  take, drop, replicate, All, length-append, length-set, length-replicate, get_or-set_self,
  get_or-set_ne, take-append-drop, length-take, length-drop, All-append, total, total-append,
  total-replicate, total-set, total-ge,
}

unfoldable pub toupper : ℕ → ℕ
toupper c = if leb b'a' c && leb c b'z' then c - 32 else c

-- The loop over the characters; `none` means that it runs past the end of the array.
unfoldable pub upper_string : List ℕ → Option (List ℕ)
unfolding toupper
upper_string [] = none
upper_string (c ∷ s) =
    let rest = upper_string s in
    if c == 0 then some (c ∷ s) else elim rest [ none ↦ none | some t ↦ some (toupper c ∷ t) ]

-- `read` puts the bytes at the start of the buffer.
unfoldable pub read_into : (buff bytes : List ℕ) → List ℕ
read_into buff bytes = bytes ++ drop (length bytes) buff

-- A read that gives these bytes, the loop, and the bytes that are written back; and the buffer after it.
unfoldable pub echo : (buff bytes : List ℕ) → Option (List ℕ × List ℕ)
unfolding upper_string read_into
echo buff bytes = elim (upper_string (read_into buff bytes)) [
  | none ↦ none
  | some b ↦ some (take (length bytes) b, b)
]

-- what a call of `read` or `recv` gives: bytes, 0, or -1 with `errno`
pub data Answer : Type 0 where
  bytes : List ℕ → Answer
  end : Answer
  failed : (errno : ℕ) → Answer
