-- ===== src/Http/GetLine.antt =====
-- `get_line` of http_code/epoll/http_epoll.c: one line from a socket, CR, LF or CR LF ending as LF.
pub mod Lines
use linux_api_and_socket_pro.Common.{
  ℕ, zero, suc, ◌+◌, ◌-◌, ◌*◌, ◌/◌, ◌%◌, ◌^◌, ◌≤◌, ◌<◌, min, ◌≡◌, refl, sym, ap, ap₂, subst, ◌∙◌,
  ◌≢◌, ◌↔◌, ◌⊎◌, inl, inr, Bool, true, false, not, ◌&&◌, ◌||◌, Option, none, some, List, [], ◌∷◌,
  ◌++◌, map, append-nil, append_assoc, arith, dec_lt, dec_le, ℕ_discrete, ltb, leb, ◌==◌,
  if◌then◌else◌, ==_iff, ==_refl, Bool-cases, Option-cases, codes, length, get_or, set, take, drop,
  replicate, All, length-append, length-set, length-replicate, get_or-set_self, get_or-set_ne,
  take-append-drop, length-take, length-drop, All-append,
}
use linux_api_and_socket_pro.Http.Bytes.{
  cr, lf, blank, cstr, str_eq, strrchr, tolower, isspace, isxdigit, decimal_from, decimal,
  str_eq_refl, strrchr-append, strrchr_missing,
}

-- What a socket will answer to one-byte reads: a byte, or `none` for a call that returns 0 or less. Past
-- the end of the list every call does: what is asked of a peer that sends without end is no case.
abbrev pub Socket : Type 0
Socket = List (Option ℕ)

-- After a CR: the byte behind it is looked at, and read if it is LF. A look that fails is used up.
unfoldable pub after_cr : Socket → Socket
after_cr [] = []
after_cr (none ∷ s) = s
after_cr (some c ∷ s) = if c == lf then s else some c ∷ s

-- The loop with room for so many bytes: the bytes stored, and what the socket holds then.
unfoldable pub get_line_loop : (room : ℕ) → Socket → List ℕ × Socket
unfolding after_cr
get_line_loop zero s = ([], s)
get_line_loop (suc room) [] = ([], [])
get_line_loop (suc room) (none ∷ s) = ([], s)
get_line_loop (suc room) (some c ∷ s) =
    let (line, s') = get_line_loop room s in
    if c == cr then (lf ∷ [], after_cr s) else if c == lf then (lf ∷ [], s) else (c ∷ line, s')

-- `get_line(sock, buf, size)`: the bytes before the final NUL, whose number it returns, and the socket.
unfoldable pub get_line : (size : ℕ) → Socket → List ℕ × Socket
unfolding get_line_loop
get_line size s = get_line_loop (size - 1) s
