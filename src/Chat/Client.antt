-- ===== src/Chat/Client.antt =====
-- server_code/client.c: what it sends of the lines that are typed, and what it prints of what comes.
pub mod Delivery
use linux_api_and_socket_pro.Common.{
  ℕ, zero, suc, ◌+◌, ◌-◌, ◌*◌, ◌/◌, ◌%◌, ◌^◌, ◌≤◌, ◌<◌, min, ◌≡◌, refl, sym, ap, ap₂, subst, ◌∙◌,
  ◌≢◌, ◌↔◌, ◌⊎◌, inl, inr, Bool, true, false, not, ◌&&◌, ◌||◌, Option, none, some, List, [], ◌∷◌,
  ◌++◌, map, append-nil, append_assoc, arith, dec_lt, dec_le, ℕ_discrete, ltb, leb, ◌==◌,
  if◌then◌else◌, ==_iff, ==_refl, ne_test, Bool-cases, Option-cases, codes, length, get_or, set,
  take, drop, replicate, All, length-append, length-set, length-replicate, get_or-set_self,
  get_or-set_ne, take-append-drop, length-take, length-drop, All-append, total, total-nil,
  total-cons, total-append, total-replicate, total-set, total-ge,
}
use linux_api_and_socket_pro.Echo.Buffer.{
  toupper, upper_string, read_into, echo, Answer, bytes, end, failed,
}
use linux_api_and_socket_pro.Http.Bytes.{
  cr, lf, blank, cstr, str_eq, strrchr, tolower, isspace, isxdigit, bit_or, decimal_from, decimal,
  str_eq_refl, strrchr-append, strrchr_missing, cstr-nul,
}

-- the calls of `init`
pub data Call : Type 0 where
  socket : Call
  reuse_address : (sock : ℕ) → Call
  connect : (sock port : ℕ) → Call
  exits : Call

-- `init`, with the descriptor of `socket` and whether `connect` succeeds; the port is cut to 16 bits
unfoldable pub init : (sock : Option ℕ) (connects : Bool) → List Call × Option ℕ
init none connects = (socket ∷ exits ∷ [], none)
init (some sock) true =
    (socket ∷ reuse_address sock ∷ connect sock (66666 % 2 ^ 16) ∷ [], some sock)
init (some sock) false =
    (socket ∷ reuse_address sock ∷ connect sock (66666 % 2 ^ 16) ∷ exits ∷ [], none)

-- a buffer of 512 bytes that starts with these and is zero behind them
unfoldable pub filled : List ℕ → List ℕ
filled text = text ++ replicate (512 - length text) 0

-- A turn of `sendsocket`: what is sent of what `fgets` gives.
unfoldable pub send_line : (line : List ℕ) → List ℕ
unfolding cstr filled
send_line line = cstr (filled line)

-- The loop of `main`: the strings that are printed before `recv` gives nothing; `none` is a byte behind the buffer.
unfoldable pub print_loop : List Answer → Option (List (List ℕ))
unfolding cstr filled
print_loop [] = some []
print_loop (end ∷ answers) = some []
print_loop (failed errno ∷ answers) = some []
print_loop (bytes input ∷ answers) =
    let rest = print_loop answers in
    if ltb (length input) 512
    then elim rest [ none ↦ none | some more ↦ some (cstr (filled input) ∷ more) ]
    else none
