-- ===== src/Http/Reply/Head.antt =====
-- A reply's head, read back with `get_line`.
use linux_api_and_socket_pro.Common.{
  ℕ, zero, suc, ◌+◌, ◌-◌, ◌/◌, ◌%◌, ◌≤◌, ◌<◌, ◌≡◌, refl, ap, inl, inr, Option, some, List, [], ◌∷◌,
  ◌++◌, map, append_assoc, arith, ltb, Bool-cases, codes, length, All, length-append, All-append,
}
use linux_api_and_socket_pro.Http.Bytes.{lf, decimal_from, decimal}
use linux_api_and_socket_pro.Http.GetLine.{Socket, get_line}
use linux_api_and_socket_pro.Http.GetLine.Lines.{crlf, IsPlain, get_line_lem}
use linux_api_and_socket_pro.Http.Reply.{end_of_line, send_response_head}

-- the bytes of a list of blocks, in order
abbrev pub concat : List (List ℕ) → List ℕ
concat [] = []
concat (b ∷ bs) = b ++ concat bs

pub concat-append : (xs ys : List (List ℕ)) → concat (xs ++ ys) ≡ concat xs ++ concat ys
concat-append [] ys = refl
concat-append (x ∷ xs) ys = rw (concat-append xs ys, append_assoc)

-- so many lines read with a buffer of `size` bytes, and the socket behind them
unfoldable pub read_lines : (lines size : ℕ) → Socket → List (List ℕ) × Socket
read_lines zero size s = ([], s)
read_lines (suc n) size s =
    let (line, s') = get_line size s in
    let (lines, s'') = read_lines n size s' in (line ∷ lines, s'')

pub map-some-append :
    (xs ys : List ℕ) → map some (xs ++ ys) ≡ map {B = Option ℕ} some xs ++ map some ys
map-some-append [] ys = refl
map-some-append (x ∷ xs) ys = ap (λ l. some x ∷ l) (map-some-append xs ys)

-- One line that the server sends, read back.
read_lines-suc :
    (n size : ℕ) (body more : List ℕ) (rest : Socket)
    → All IsPlain body
    → length body < size - 1
    → let (lines, s) = read_lines n size (map some more ++ rest) in
      read_lines (suc n) size (map some ((body ++ end_of_line) ++ more) ++ rest)
      ≡ ((body ++ (lf ∷ [])) ∷ lines, s)
unfolding read_lines
read_lines-suc n size body more rest plain fits = rw (
  append_assoc,
  map-some-append body (end_of_line ++ more),
  append_assoc,
  get_line_lem size body crlf (map some more ++ rest) plain tt fits,
)

read_lines-zero : (size : ℕ) (s : Socket) → read_lines 0 size s ≡ ([], s)
unfolding read_lines
read_lines-zero size s = refl

read_four :
    (size : ℕ) (a b c : List ℕ) (rest : Socket)
    → All IsPlain a
    → All IsPlain b
    → All IsPlain c
    → length a < size - 1
    → length b < size - 1
    → length c < size - 1
    → read_lines 4 size (
        map some (
          (a ++ end_of_line) ++ ((b ++ end_of_line) ++ ((c ++ end_of_line) ++ (end_of_line ++ []))))
        ++ rest)
      ≡ ((a ++ (lf ∷ [])) ∷ (b ++ (lf ∷ [])) ∷ (c ++ (lf ∷ [])) ∷ (lf ∷ []) ∷ [], rest)
read_four size a b c rest pa pb pc fa fb fc = rw (
  read_lines-suc 3 size a _ rest pa fa,
  read_lines-suc 2 size b _ rest pb fb,
  read_lines-suc 1 size c _ rest pc fc,
  read_lines-suc 0 size [] [] rest tt (omega arith),
  read_lines-zero,
)

abbrev pub status_line : ℕ → List ℕ → List ℕ
status_line req_no descp = codes "http/1.1 " ++ (decimal req_no ++ (codes " " ++ descp))

abbrev pub type_line : List ℕ → List ℕ
type_line type = codes "Content-Type:" ++ type

abbrev pub length_line : ℕ → List ℕ
length_line len = codes "Content-Length:" ++ decimal len

digits-IsPlain : (fuel n : ℕ) → All IsPlain (decimal_from fuel n)
unfolding decimal_from
digits-IsPlain zero n = tt
digits-IsPlain (suc fuel) n = elim (Bool-cases (ltb n 10)) [
  | inl small ↦ rw small ((omega arith, omega arith), tt)
  | inr large ↦ rw large (
      All-append IsPlain (decimal_from fuel (n / 10)) ((b'0' + n % 10) ∷ [])
        (digits-IsPlain fuel (n / 10)) ((omega arith, omega arith), tt))
]

decimal-IsPlain : (n : ℕ) → All IsPlain (decimal n)
unfolding decimal
decimal-IsPlain n = digits-IsPlain (n + 1) n

pub concat-send_response_head :
    (req_no len : ℕ) (descp type : List ℕ)
    → concat (send_response_head req_no descp type len)
      ≡ (status_line req_no descp ++ end_of_line)
        ++ ((type_line type ++ end_of_line)
            ++ ((length_line len ++ end_of_line) ++ (end_of_line ++ [])))
unfolding send_response_head
concat-send_response_head req_no len descp type = simp append_assoc

-- A head whose description and type hold no CR or LF, and whose status line and whose two fields together have fewer
-- than 1024 bytes, the size of the buffer that they are printed to, is read back by `get_line`, with a buffer of 1024
-- bytes or more, as its status line, its two fields and an empty line, and nothing behind the head is touched.
pub read_lines-send_response_head :
    (size req_no len : ℕ) (descp type : List ℕ) (rest : Socket)
    → All IsPlain descp
    → All IsPlain type
    → length (status_line req_no descp ++ end_of_line) < 1024
    → length ((type_line type ++ end_of_line) ++ (length_line len ++ end_of_line)) < 1024
    → 1024 ≤ size
    → read_lines 4 size (map some (concat (send_response_head req_no descp type len)) ++ rest) ≡ (
      ((status_line req_no descp ++ (lf ∷ []))
          ∷ (type_line type ++ (lf ∷ []))
          ∷ (length_line len ++ (lf ∷ []))
          ∷ (lf ∷ [])
          ∷ []),
      rest,
    )
read_lines-send_response_head size req_no len descp type rest plain_d plain_t first second enough =
    rw (concat-send_response_head req_no len descp type) (
      read_four size (status_line req_no descp) (type_line type) (length_line len) rest
        (All-append IsPlain (codes "http/1.1 ") _ (omega arith) (
          All-append IsPlain (decimal req_no) _ (decimal-IsPlain req_no)
            (All-append IsPlain (codes " ") descp (omega arith) plain_d)))
        (All-append IsPlain (codes "Content-Type:") type (omega arith) plain_t)
        (All-append IsPlain (codes "Content-Length:") (decimal len) (omega arith)
          (decimal-IsPlain len))
        (omega (arith, first, enough, length-append (status_line req_no descp) end_of_line))
        (omega (arith, two_fields)) (omega (arith, two_fields)))
  where
    two_fields : (length (type_line type) < size - 1) × (length (length_line len) < size - 1)
    two_fields = omega (
      arith,
      second,
      enough,
      length-append (type_line type ++ end_of_line) (length_line len ++ end_of_line),
      length-append (type_line type) end_of_line,
      length-append (length_line len) end_of_line,
    )
