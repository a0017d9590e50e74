-- ===== src/Http/Libevent.antt =====
-- http_code/libevent/libevent_http.c: a web server on the callbacks of libevent, whose calls are listed and
-- not modelled. The rows of a directory page are those of the epoll server.
pub mod Paths
pub mod Serve
pub mod Life
use linux_api_and_socket_pro.Common.{
  ℕ, zero, suc, ◌+◌, ◌-◌, ◌*◌, ◌/◌, ◌%◌, ◌^◌, ◌≤◌, ◌<◌, min, ◌≡◌, refl, sym, ap, ap₂, subst, ◌∙◌,
  ◌≢◌, ◌↔◌, ◌⊎◌, inl, inr, Bool, true, false, not, ◌&&◌, ◌||◌, Option, none, some, List, [], ◌∷◌,
  ◌++◌, map, append-nil, append_assoc, arith, dec_lt, dec_le, ℕ_discrete, ltb, leb, ◌==◌,
  if◌then◌else◌, ==_iff, ==_refl, ne_test, Bool-cases, Option-cases, codes, length, get_or, set,
  take, drop, replicate, All, length-append, length-set, length-replicate, get_or-set_self,
  get_or-set_ne, take-append-drop, length-take, length-drop, All-append, total, total-nil,
  total-cons, total-append, total-replicate, total-set, total-ge,
}
use linux_api_and_socket_pro.Http.Bytes.{
  cr, lf, blank, cstr, str_eq, strrchr, tolower, isspace, isxdigit, bit_or, decimal_from, decimal,
  str_eq_refl, strrchr-append, strrchr_missing, cstr-nul,
}
use linux_api_and_socket_pro.Http.FileType.{plain_text, type_of_suffix}
use linux_api_and_socket_pro.Http.Decode.{hexit, is_escape, decode_str}
use linux_api_and_socket_pro.Http.Files.{Mode, directory, regular, special, Stat, FileSystem}
use linux_api_and_socket_pro.Http.Reply.{
  end_of_line, send_blocks, dir_foot, dir_row, entry_stat, fits_file,
}
use linux_api_and_socket_pro.Http.Epoll.{
  scan_word, skip_space, scan_request, request_path, respond_found, respond, http_get_request,
  is_get, Call, send, ctl_add, ctl_del, set_flags, close, abort, overrun, read_on, read_rest,
  read_request, disconnect, do_read_of, do_read,
}

-- The chain of comparisons with the name from its last dot on.
unfoldable pub type_of_dot : List ℕ → List ℕ
unfolding str_eq
type_of_dot dot =
    if str_eq dot (codes ".html") || str_eq dot (codes ".htm")
    then codes "text/html; charset=utf-8"
    else if str_eq dot (codes ".jpg") || str_eq dot (codes ".jpeg")
    then codes "image/jpeg"
    else if str_eq dot (codes ".gif")
    then codes "image/gif"
    else if str_eq dot (codes ".png")
    then codes "image/png"
    else if str_eq dot (codes ".css")
    then codes "text/css"
    else if str_eq dot (codes ".au")
    then codes "audio/basic"
    else if str_eq dot (codes ".wav")
    then codes "audio/wav"
    else if str_eq dot (codes ".avi")
    then codes "video/x-msvideo"
    else if str_eq dot (codes ".mov") || str_eq dot (codes ".qt")
    then codes "video/quicktime"
    else if str_eq dot (codes ".mpeg") || str_eq dot (codes ".mpe")
    then codes "video/mpeg"
    else if str_eq dot (codes ".vrml") || str_eq dot (codes ".wrl")
    then codes "model/vrml"
    else if str_eq dot (codes ".midi") || str_eq dot (codes ".mid")
    then codes "audio/midi"
    else if str_eq dot (codes ".mp3")
    then codes "audio/mpeg"
    else if str_eq dot (codes ".ogg")
    then codes "application/ogg"
    else if str_eq dot (codes ".pac")
    then codes "application/x-ns-proxy-autoconfig"
    else plain_text

unfoldable pub get_file_type : List ℕ → List ℕ
unfolding strrchr type_of_dot
get_file_type name = elim (strrchr name b'.') [ none ↦ plain_text | some dot ↦ type_of_dot dot ]

-- `send_response_head`: status line, three fields and an empty line, in three calls.
unfoldable pub send_response_head : (req_no : ℕ) (descp type : List ℕ) (len : ℕ) → List (List ℕ)
unfolding decimal
send_response_head req_no descp type len =
    (codes "http/1.1 " ++ (decimal req_no ++ (codes " " ++ (descp ++ end_of_line))))
    ∷ ((codes "Content-Type:" ++ (type ++ end_of_line))
        ++ ((codes "Content-Length:" ++ (decimal len ++ end_of_line))
            ++ (codes "Connection: close" ++ end_of_line)))
    ∷ end_of_line
    ∷ []

abbrev pub max_buff_size : ℕ
max_buff_size = 4096

unfoldable pub send_file : FileSystem → List ℕ → List (List ℕ)
unfolding send_blocks
send_file fs path = elim (fs.open_file path) [
  | none ↦ []
  | some file ↦ send_blocks (length file) max_buff_size file
]

unfoldable pub dir_head : List ℕ → List ℕ
dir_head path =
    (codes "<html><head><title>curpath-" ++ (path ++ codes "</title></head>"))
    ++ (codes "<body><h1 align=\"center\">Current Directory:"
        ++ (path ++ codes "</h1><center><table border>"))

-- The loop of `send_dir`: `buff` is what the buffer holds, and is emptied after each call.
unfoldable pub send_rows : FileSystem → List ℕ → List ℕ → List (List ℕ) → List (List ℕ)
unfolding dir_row entry_stat
send_rows fs path buff [] = (buff ++ dir_foot) ∷ []
send_rows fs path buff (name ∷ names) =
    (buff ++ dir_row name (entry_stat fs path name)) ∷ send_rows fs path [] names

unfoldable pub send_dir : FileSystem → List ℕ → List (List ℕ)
unfolding send_rows dir_head
send_dir fs path = send_rows fs path (dir_head path) (fs.scandir path)

-- the file that a path names: decoded, without its first byte, up to a NUL that an escape may give, and `.`
-- if that is empty
unfoldable pub file_path : List ℕ → List ℕ
unfolding decode_str cstr
file_path path = elim (cstr (drop 1 (decode_str path))) [ [] ↦ codes "." | c ∷ p ↦ c ∷ p ]

unfoldable pub found : FileSystem → List ℕ → ℕ → Mode → List (List ℕ)
found fs path st_size Mode.directory =
    send_response_head 200 (codes "OK") (get_file_type (codes ".html")) 99999 ++ send_dir fs path
found fs path st_size Mode.regular =
    send_response_head 200 (codes "OK") (get_file_type path) st_size ++ send_file fs path
found fs path st_size Mode.special = []

unfoldable pub stat_reply : FileSystem → List ℕ → Option Stat → List (List ℕ)
unfolding found
stat_reply fs path none =
    send_response_head 404 (codes "ERRO") (get_file_type (codes ".html")) 1024
    ++ send_file fs (codes "404.html")
stat_reply fs path (some st) = found fs path st.st_size st.st_mode

-- `http_response`: the blocks that it writes for a path.
unfoldable pub http_response : FileSystem → List ℕ → List (List ℕ)
unfolding file_path stat_reply
http_response fs path = stat_reply fs (file_path path) (fs.stat (file_path path))

-- a run that `sscanf` matches; an empty one assigns nothing
abbrev pub assigned : List ℕ → Option (List ℕ)
assigned [] = none
assigned (c ∷ w) = some (c ∷ w)

-- `method` and `path` after `sscanf(buff,"%[^ ] %[^ ] %[^ \r\n]",method,path,protocol)`; `none` is a buffer
-- that stays uninitialised. A word too long for its buffer is no case of the model.
unfoldable pub scan_head : List ℕ → Option (List ℕ) × Option (List ℕ)
unfolding scan_word skip_space cstr
scan_head buff =
    let (method, rest) = scan_word (cstr buff) in
    elim method [
      | [] ↦ (none, none)
      | m ∷ ms ↦ (some (m ∷ ms), assigned (scan_word (skip_space rest)).0)
    ]

-- the end of `cb_read`: `none` is the use of an uninitialised buffer
unfoldable pub read_reply : FileSystem → Option (List ℕ) × Option (List ℕ) → Option (List (List ℕ))
unfolding http_response tolower
read_reply fs (none, path) = none
read_reply fs (some method, none) =
    if str_eq (map tolower method) (codes "get") then none else some []
read_reply fs (some method, some path) =
    if str_eq (map tolower method) (codes "get") then some (http_response fs path) else some []

-- `cb_read`, on the bytes that `bufferevent_read` takes: at most the buffer's size.
unfoldable pub cb_read : FileSystem → List ℕ → Option (List (List ℕ))
unfolding read_reply scan_head
cb_read fs input = read_reply fs (scan_head (take max_buff_size input))

-- the calls of libevent, and of the allocator, for one connection
pub data Action : Type 0 where
  allocate release new_buffer free_buffer : Action
  flush set_callbacks enable : Action
  assert_fails log_closed log_error : Action

-- `cb_listener`; `bufev` says whether `bufferevent_socket_new` gives a buffer event.
unfoldable pub cb_listener : (bufev : Bool) → List Action
cb_listener true = allocate ∷ new_buffer ∷ flush ∷ set_callbacks ∷ enable ∷ []
cb_listener false = allocate ∷ new_buffer ∷ assert_fails ∷ []

abbrev pub bev_event_eof : ℕ
bev_event_eof = 0x10

abbrev pub bev_event_error : ℕ
bev_event_error = 0x20

-- `cb_event`; `arg` says whether an address was passed.
unfoldable pub cb_event : (events_what : ℕ) (arg : Bool) → List Action
unfolding bit_or
cb_event events_what arg =
    (if bit_or events_what bev_event_eof == 0
      then if bit_or events_what bev_event_error == 0 then [] else log_error ∷ []
      else log_closed ∷ [])
    ++ ((if arg then release ∷ [] else []) ++ (free_buffer ∷ []))
