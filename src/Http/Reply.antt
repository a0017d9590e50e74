-- ===== src/Http/Reply.antt =====
-- The replies of http_code/epoll/http_epoll.c: the blocks of bytes that its `send` calls are given.
pub mod Head
pub mod Body
use linux_api_and_socket_pro.Common.{
  ℕ, zero, suc, ◌+◌, ◌-◌, ◌*◌, ◌/◌, ◌%◌, ◌^◌, ◌≤◌, ◌<◌, min, ◌≡◌, refl, sym, ap, ap₂, subst, ◌∙◌,
  ◌≢◌, ◌↔◌, ◌⊎◌, inl, inr, Bool, true, false, not, ◌&&◌, ◌||◌, Option, none, some, List, [], ◌∷◌,
  ◌++◌, map, append-nil, append_assoc, arith, dec_lt, dec_le, ℕ_discrete, ltb, leb, ◌==◌,
  if◌then◌else◌, ==_iff, ==_refl, ne_test, Bool-cases, Option-cases, codes, length, get_or, set,
  take, drop, replicate, All, length-append, length-set, length-replicate, get_or-set_self,
  get_or-set_ne, take-append-drop, length-take, length-drop, All-append, total, total-nil,
  total-cons, total-append, total-replicate, total-set, total-ge,
}
use linux_api_and_socket_pro.Http.Bytes.{
  cr, lf, blank, cstr, str_eq, strrchr, tolower, isspace, isxdigit, bit_or, decimal_from, decimal,
  str_eq_refl, strrchr-append, strrchr_missing, cstr-nul,
}
use linux_api_and_socket_pro.Http.Files.{Mode, directory, regular, special, Stat, FileSystem}

abbrev pub end_of_line : List ℕ
end_of_line = cr ∷ lf ∷ []

-- `send_response_head`: status line, two fields and an empty line, in three calls. A status line, or two fields
-- together, of 1024 bytes or more, for which `buff` is too short, is no case of the model; those of the
-- callers are shorter.
unfoldable pub send_response_head : (req_no : ℕ) (descp type : List ℕ) (len : ℕ) → List (List ℕ)
unfolding decimal
send_response_head req_no descp type len =
    (codes "http/1.1 " ++ (decimal req_no ++ (codes " " ++ (descp ++ end_of_line))))
    ∷ ((codes "Content-Type:" ++ (type ++ end_of_line))
        ++ (codes "Content-Length:" ++ (decimal len ++ end_of_line)))
    ∷ end_of_line
    ∷ []

-- The loop of `send_file`: `read` fills a buffer of `size` bytes while the file has as many left.
unfoldable pub send_blocks : (fuel size : ℕ) → List ℕ → List (List ℕ)
send_blocks zero size file = []
send_blocks (suc fuel) size [] = []
send_blocks (suc fuel) size (b ∷ file) =
    take size (b ∷ file) ∷ send_blocks fuel size (drop size (b ∷ file))

abbrev pub max_buff_size : ℕ
max_buff_size = 1024

-- A block holds a byte at least, so the length of the file is fuel enough.
unfoldable pub send_file : FileSystem → List ℕ → List (List ℕ)
unfolding send_blocks
send_file fs path = elim (fs.open_file path) [
  | none ↦ []
  | some file ↦ send_blocks (length file) max_buff_size file
]

-- the text before the first row of a directory page, and after its last
unfoldable pub dir_head : List ℕ → List ℕ
dir_head path =
    (codes "<html><head><title>curpath-" ++ (path ++ codes "</title></head>"))
    ++ (codes "<body><h1 align=\"center\">Current Directory:"
        ++ (path ++ codes "</h1><center><table>"))

abbrev pub dir_foot : List ℕ
dir_foot = codes "</table></center></body></html>"

-- The row of one entry: a file, a directory, or nothing.
unfoldable pub dir_row : List ℕ → Stat → List ℕ
unfolding decimal
dir_row name st = elim (st.st_mode) [
  | Mode.regular ↦
      codes "<tr><td><a href=\""
      ++ (name
          ++ (codes "\">"
              ++ (name ++ (codes "</a></td><td>" ++ (decimal st.st_size ++ codes "</td></tr>")))))
  | Mode.directory ↦
      codes "<tr><td><a href=\""
      ++ (name
          ++ (codes "/\">"
              ++ (name ++ (codes "/</a></td><td>" ++ (decimal st.st_size ++ codes "</td></tr>")))))
  | Mode.special ↦ []
]

-- `st` of an entry: where `stat` fails, the variable is sent as it is.
unfoldable pub entry_stat : FileSystem → List ℕ → List ℕ → Stat
entry_stat fs path name = elim (fs.stat (path ++ (b'/' ∷ name))) [
  | some st ↦ st
  | none ↦ fs.stale (path ++ (b'/' ∷ name))
]

-- The path of an entry fits `file`, with its NUL.
abbrev pub fits_file : List ℕ → List ℕ → Bool
fits_file path name = ltb (length (path ++ (b'/' ∷ name))) max_buff_size

-- The loop of `send_dir`: `buff` is what the buffer holds, and is emptied after each call of `send`. `none` is a path
-- that is written behind the end of `file`.
unfoldable pub send_rows : FileSystem → List ℕ → List ℕ → List (List ℕ) → Option (List (List ℕ))
unfolding dir_row entry_stat
send_rows fs path buff [] = some ((buff ++ dir_foot) ∷ [])
send_rows fs path buff (name ∷ names) =
    let rest = send_rows fs path [] names in
    if fits_file path name
    then (elim rest [
      | none ↦ none
      | some rows ↦ some ((buff ++ dir_row name (entry_stat fs path name)) ∷ rows)
    ])
    else none

unfoldable pub send_dir : FileSystem → List ℕ → Option (List (List ℕ))
unfolding send_rows dir_head
send_dir fs path = send_rows fs path (dir_head path) (fs.scandir path)
