-- ===== src/Http/Decode.antt =====
-- `hexit` and `decode_str` of http_code/libevent/libevent_http.c: percent decoding of a request path.
pub mod RoundTrip
use linux_api_and_socket_pro.Common.{
  ℕ, zero, suc, ◌+◌, ◌-◌, ◌*◌, ◌/◌, ◌%◌, ◌^◌, ◌≤◌, ◌<◌, min, ◌≡◌, refl, sym, ap, ap₂, subst, ◌∙◌,
  ◌≢◌, ◌↔◌, ◌⊎◌, inl, inr, Bool, true, false, not, ◌&&◌, ◌||◌, Option, none, some, List, [], ◌∷◌,
  ◌++◌, map, append-nil, append_assoc, arith, dec_lt, dec_le, ℕ_discrete, ltb, leb, ◌==◌,
  if◌then◌else◌, ==_iff, ==_refl, ne_test, Bool-cases, Option-cases, codes, length, get_or, set,
  take, drop, replicate, All, length-append, length-set, length-replicate, get_or-set_self,
  get_or-set_ne, take-append-drop, length-take, length-drop, All-append, total, total-nil,
  total-cons, total-append, total-replicate, total-set, total-ge,
}
use linux_api_and_socket_pro.Http.Bytes.{
  cr, lf, blank, cstr, str_eq, strrchr, tolower, isspace, isxdigit, bit_or, decimal_from, decimal,
  str_eq_refl, strrchr-append, strrchr_missing, cstr-nul,
}

-- the value of a hexadecimal digit, and 0 for any other byte
unfoldable pub hexit : ℕ → ℕ
hexit c =
    if leb b'0' c && leb c b'9'
    then c - b'0'
    else if leb b'a' c && leb c b'f'
    then c - b'a' + 10
    else if leb b'A' c && leb c b'F'
    then c - b'A' + 10
    else 0

-- the test for an escape, on three bytes
unfoldable pub is_escape : ℕ → ℕ → ℕ → Bool
unfolding isxdigit
is_escape c d e = (c == b'%') && (isxdigit d && isxdigit e)

-- `decode_str(to, from)`: the loop ends at a NUL, and the end of the list stands for one too. A `%` less than two
-- bytes before the end is followed by the NUL, which is no hexadecimal digit. A byte is an unsigned one here.
unfoldable pub decode_str : List ℕ → List ℕ
decode_str [] = []
decode_str (c ∷ []) = if c == 0 then [] else c ∷ []
decode_str (c ∷ d ∷ []) = let plain = decode_str (d ∷ []) in if c == 0 then [] else c ∷ plain
decode_str (c ∷ d ∷ e ∷ s) =
    let plain = decode_str (d ∷ e ∷ s) in
    let decoded = decode_str s in
    if c == 0 then [] else if is_escape c d e then (hexit d * 16 + hexit e) ∷ decoded else c ∷ plain
