-- ===== src/Http/GetLine/Lines.antt =====
-- What `get_line` takes from the socket, for each way in which a line can end.
use linux_api_and_socket_pro.Common.{
  ℕ, zero, suc, ◌+◌, ◌-◌, ◌≤◌, ◌<◌, ◌≡◌, ◌≢◌, none, some, List, [], ◌∷◌, ◌++◌, map, arith,
  ℕ_discrete, ne_test, length, All,
}
use linux_api_and_socket_pro.Http.Bytes.{cr, lf}
use linux_api_and_socket_pro.Http.GetLine.{Socket, after_cr, get_line_loop, get_line}

-- How a line ends: by CR LF, by LF, by CR before another byte, or because no byte comes.
pub data LineEnd : Type 0 where
  crlf lf_alone no_more : LineEnd
  cr_before : ℕ → LineEnd

-- the socket from the end of the line on
abbrev pub ending : LineEnd → Socket → Socket
ending crlf rest = some cr ∷ some lf ∷ rest
ending lf_alone rest = some lf ∷ rest
ending no_more rest = none ∷ rest
ending (cr_before c) rest = some cr ∷ some c ∷ rest

-- what `get_line` stores for the end
abbrev pub kept : LineEnd → List ℕ
kept no_more = []
kept _ = lf ∷ []

-- what it leaves in the socket
abbrev pub left : LineEnd → Socket → Socket
left (cr_before c) rest = some c ∷ rest
left _ rest = rest

abbrev pub IsPlain : ℕ → Type 0
IsPlain c = (c ≢ cr) × (c ≢ lf)

abbrev pub IsEnd : LineEnd → Type 0
IsEnd (cr_before c) = c ≢ lf
IsEnd _ = Unit

get_line_loop_lem :
    (room : ℕ) (body : List ℕ) (e : LineEnd) (rest : Socket)
    → All IsPlain body
    → IsEnd e
    → length body < room
    → get_line_loop room (map some body ++ ending e rest) ≡ (body ++ kept e, left e rest)
unfolding get_line_loop
get_line_loop_lem zero body e rest plain ok fits = elim fits [ ]
get_line_loop_lem (suc room) [] crlf rest plain ok fits = ground arith
get_line_loop_lem (suc room) [] lf_alone rest plain ok fits = ground arith
get_line_loop_lem (suc room) [] no_more rest plain ok fits = ground arith
get_line_loop_lem (suc room) [] (cr_before c) rest plain ok fits = ground arith
get_line_loop_lem (suc room) (b ∷ body) e rest plain ok fits =
    ground (arith, plain.0, get_line_loop_lem room body e rest plain.1 ok (omega arith))

-- A line of bytes other than CR and LF that fits is stored as it is, followed by one LF if it ended by
-- CR LF, LF or CR, and by nothing if no byte came. Of what follows only the end of the line is taken
-- from the socket: after a lone CR the next byte stays.
pub get_line_lem :
    (size : ℕ) (body : List ℕ) (e : LineEnd) (rest : Socket)
    → All IsPlain body
    → IsEnd e
    → length body < size - 1
    → get_line size (map some body ++ ending e rest) ≡ (body ++ kept e, left e rest)
unfolding get_line
get_line_lem size body e rest plain ok fits = get_line_loop_lem (size - 1) body e rest plain ok fits

length-after_cr : (s : Socket) → length (after_cr s) ≤ length s
unfolding after_cr
length-after_cr [] = omega arith
length-after_cr (none ∷ s) = omega arith
length-after_cr (some c ∷ s) = ground arith

-- What a line may be, read from the socket `s` into so much room.
abbrev pub Fits : ℕ → Socket → List ℕ × Socket → Type 0
Fits room s (line, rest) =
    (length line ≤ room) × All (λ c. c ≢ cr) line × (length line + length rest ≤ length s)

get_line_loop_bounds : (room : ℕ) (s : Socket) → Fits room s (get_line_loop room s)
unfolding get_line_loop
get_line_loop_bounds zero s = (omega arith, tt, omega arith)
get_line_loop_bounds (suc room) [] = (omega arith, tt, omega arith)
get_line_loop_bounds (suc room) (none ∷ s) = (omega arith, tt, omega arith)
get_line_loop_bounds (suc room) (some c ∷ s) = elim (ℕ_discrete c cr) [
  | yes e ↦ let shorter = length-after_cr s in rw (e) (omega arith, (omega arith, tt), omega arith)
  | no ne ↦ elim (ℕ_discrete c lf) [
    | yes e ↦ rw e (omega arith, (omega arith, tt), omega arith)
    | no other ↦
        let (fits, no_cr, used) = get_line_loop_bounds room s in
        rw (ne_test c cr ne, ne_test c lf other) (omega arith, (ne, no_cr), omega arith)
  ]
]

-- Whatever the socket answers, a line fits its buffer together with the final NUL and holds no CR, and
-- each byte of it was taken from the socket.
pub get_line_bounds : (size : ℕ) (s : Socket) → Fits (size - 1) s (get_line size s)
unfolding get_line
get_line_bounds size s = get_line_loop_bounds (size - 1) s
