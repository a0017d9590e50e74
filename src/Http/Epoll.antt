-- ===== src/Http/Epoll.antt =====
-- http_code/epoll/http_epoll.c: the request handler, and the loop over the events of one `epoll_wait`.
pub mod Requests
pub mod Answer
pub mod Serve
use linux_api_and_socket_pro.Common.{
  ℕ, zero, suc, ◌+◌, ◌-◌, ◌*◌, ◌/◌, ◌%◌, ◌^◌, ◌≤◌, ◌<◌, min, ◌≡◌, refl, sym, ap, ap₂, subst, ◌∙◌,
  ◌≢◌, ◌↔◌, ◌⊎◌, inl, inr, Bool, true, false, not, ◌&&◌, ◌||◌, Option, none, some, List, [], ◌∷◌,
  ◌++◌, map, append-nil, append_assoc, arith, dec_lt, dec_le, ℕ_discrete, ltb, leb, ◌==◌,
  if◌then◌else◌, ==_iff, ==_refl, ne_test, Bool-cases, Option-cases, codes, length, get_or, set,
  take, drop, replicate, All, length-append, length-set, length-replicate, get_or-set_self,
  get_or-set_ne, take-append-drop, length-take, length-drop, All-append, total, total-nil,
  total-cons, total-append, total-replicate, total-set, total-ge,
}
use linux_api_and_socket_pro.Http.Bytes.{
  cr, lf, blank, cstr, str_eq, strrchr, tolower, isspace, isxdigit, bit_or, decimal_from, decimal,
  str_eq_refl, strrchr-append, strrchr_missing, cstr-nul,
}
use linux_api_and_socket_pro.Http.GetLine.{Socket, after_cr, get_line_loop, get_line}
use linux_api_and_socket_pro.Http.FileType.{plain_text, type_of_suffix, get_file_type}
use linux_api_and_socket_pro.Http.Files.{Mode, directory, regular, special, Stat, FileSystem}
use linux_api_and_socket_pro.Http.Reply.{
  end_of_line, send_response_head, send_blocks, max_buff_size, send_file, dir_head, dir_foot,
  dir_row, entry_stat, fits_file, send_rows, send_dir,
}

-- `%[^ ]` of `sscanf`: the longest run of bytes other than a blank, and the rest
unfoldable pub scan_word : List ℕ → List ℕ × List ℕ
scan_word [] = ([], [])
scan_word (c ∷ s) =
    let (word, rest) = scan_word s in if c == blank then ([], c ∷ s) else (c ∷ word, rest)

-- a blank in the format of `sscanf`: any white space
unfoldable pub skip_space : List ℕ → List ℕ
unfolding isspace
skip_space [] = []
skip_space (c ∷ s) = if isspace c then skip_space s else c ∷ s

-- `sscanf(line,"%[^ ] %[^ ]",mothod,buff)`: a run must not be empty, and after a failure the second
-- buffer keeps its zeros. A first word of ten bytes or more, for which the buffer of the source is too
-- short, is no case of the model.
unfoldable pub scan_request : List ℕ → List ℕ × List ℕ
unfolding scan_word skip_space
scan_request line =
    let (method, rest) = scan_word (cstr line) in
    elim method [ [] ↦ ([], []) | m ∷ ms ↦ (m ∷ ms, (scan_word (skip_space rest)).0) ]

-- The path behind the first byte of the second word, and `.` where that is empty.
unfoldable pub request_path : List ℕ → List ℕ
request_path buff = elim (drop 1 buff) [ [] ↦ codes "." | c ∷ path ↦ c ∷ path ]

-- The blocks that are sent for a path whose `stat` succeeds; `none` is that of `send_dir`.
unfoldable pub respond_found : FileSystem → List ℕ → ℕ → Mode → Option (List (List ℕ))
respond_found fs path st_size Mode.directory =
    let top = send_response_head 200 (codes "OK") (get_file_type (codes ".html")) 99999 in
    elim (send_dir fs path) [ none ↦ none | some rows ↦ some (top ++ rows) ]
respond_found fs path st_size Mode.regular =
    some (send_response_head 200 (codes "OK") (get_file_type path) st_size ++ send_file fs path)
respond_found fs path st_size Mode.special = some []

unfoldable pub respond : FileSystem → List ℕ → Option Stat → Option (List (List ℕ))
unfolding respond_found
respond fs path none = some (
    send_response_head 404 (codes "ERRO") (get_file_type (codes ".html")) 1024
    ++ send_file fs (codes "404.html"))
respond fs path (some st) = respond_found fs path st.st_size st.st_mode

-- `http_get_request`: the blocks that it sends for a request line.
unfoldable pub http_get_request : FileSystem → List ℕ → Option (List (List ℕ))
unfolding scan_request request_path respond
http_get_request fs line =
    let path = request_path (scan_request line).1 in respond fs path (fs.stat path)

-- `strncasecmp("get", line, 3) == 0`
unfoldable pub is_get : List ℕ → Bool
unfolding tolower
is_get (g ∷ e ∷ t ∷ rest) = (tolower g == b'g') && ((tolower e == b'e') && (tolower t == b't'))
is_get _ = false

-- the calls that change the state of a connection or of the epoll instance, the end of the program by `assert`, and a
-- write behind an array, which no run is followed beyond
pub data Call : Type 0 where
  send : (fd : ℕ) (block : List ℕ) → Call
  ctl_add : (fd events : ℕ) → Call
  ctl_del : (fd : ℕ) → Call
  set_flags : (fd flags : ℕ) → Call
  close : (fd : ℕ) → Call
  abort overrun : Call

-- the loop of `do_read` that reads on until a line is empty; `none` means that the fuel ran out
unfoldable pub read_on : (fuel : ℕ) → Socket → Option Socket
read_on zero s = none
read_on (suc fuel) s =
    let (line, s') = get_line max_buff_size s in
    elim line [ [] ↦ some s' | c ∷ cs ↦ read_on fuel s' ]

-- From the first line of a request on: the line, and the socket after the loop. Without a first line
-- there is no loop.
unfoldable pub read_rest : List ℕ × Socket → Option (List ℕ × Socket)
unfolding read_on
read_rest ([], s) = some ([], s)
read_rest (c ∷ cs, s) = elim (read_on (length s + 1) s) [
  | none ↦ none
  | some rest ↦ some (c ∷ cs, rest)
]

unfoldable pub read_request : Socket → Option (List ℕ × Socket)
unfolding read_rest
read_request s = read_rest (get_line max_buff_size s)

-- `deleted` says whether `epoll_ctl` succeeds.
unfoldable pub disconnect : (deleted : Bool) → ℕ → List Call
disconnect deleted fd = ctl_del fd ∷ (if deleted then close fd else abort) ∷ []

-- what `do_read` does once the request is read
unfoldable pub do_read_of :
    FileSystem → (deleted : Bool) → ℕ → Option (List ℕ × Socket) → Option (List Call × Socket)
unfolding disconnect
do_read_of fs deleted fd none = none
do_read_of fs deleted fd (some (line, rest)) = some (
  if is_get line
      then (elim (http_get_request fs line) [
        | none ↦ overrun ∷ []
        | some blocks ↦ map (send fd) blocks ++ disconnect deleted fd
      ])
      else [],
  rest,
)

-- `do_read`: the calls, and the socket after it.
unfoldable pub do_read : FileSystem → (deleted : Bool) → ℕ → Socket → Option (List Call × Socket)
unfolding read_request do_read_of
do_read fs deleted fd s = do_read_of fs deleted fd (read_request s)
