-- ===== src/Http/Libevent/Serve.antt =====
-- What the callbacks of the libevent server do with a connection.
use linux_api_and_socket_pro.Common.{
  ℕ, ◌<◌, ◌≡◌, refl, sym, ap, ap₂, ◌∙◌, ◌≢◌, inl, inr, Option, none, some, List, [], ◌∷◌, ◌++◌, map,
  append-nil, append_assoc, arith, Option-cases, codes, length, All,
}
use linux_api_and_socket_pro.Http.Libevent.Paths.{
  take_all, IsByte, encode-IsWord, file_path-encode, scan_head_lem,
}
use linux_api_and_socket_pro.Http.Decode.RoundTrip.{Choice, as_is, encode}
use linux_api_and_socket_pro.Http.Epoll.Requests.{IsWord}
use linux_api_and_socket_pro.Http.Libevent.{
  type_of_dot, get_file_type, send_response_head, max_buff_size, send_file, dir_head, send_rows,
  send_dir, found, stat_reply, http_response, read_reply, cb_read,
}
use linux_api_and_socket_pro.Http.Bytes.{cr, blank, str_eq, tolower}
use linux_api_and_socket_pro.Http.FileType.{type_of_suffix, get_file_type as epoll_file_type}
use linux_api_and_socket_pro.Http.Files.{Mode, Stat, FileSystem}
use linux_api_and_socket_pro.Http.Reply.{end_of_line, dir_foot, dir_row, entry_stat}
use linux_api_and_socket_pro.Http.Reply.Head.{
  concat, concat-append, status_line, type_line, length_line,
}
use linux_api_and_socket_pro.Http.Reply.Body.{send_blocks_lem, contents_or_none}
use linux_api_and_socket_pro.Http.Epoll.Answer.{path_or_dot, request_line, html}

type_of_dot-same : (dot : List ℕ) → type_of_dot dot ≡ type_of_suffix dot
unfolding type_of_dot type_of_suffix
type_of_dot-same dot = refl

-- Both servers give every file name the same media type.
pub get_file_type-same : (name : List ℕ) → get_file_type name ≡ epoll_file_type name
unfolding get_file_type epoll_file_type
get_file_type-same name = refl

-- the bytes of a head
abbrev pub close_head : ℕ → List ℕ → List ℕ → ℕ → List ℕ
close_head req_no descp type len =
    (status_line req_no descp ++ end_of_line)
    ++ ((type_line type ++ end_of_line)
        ++ ((length_line len ++ end_of_line)
            ++ ((codes "Connection: close" ++ end_of_line) ++ end_of_line)))

-- the bytes of the answer for a path, by what `stat` says of it
abbrev pub reply : FileSystem → List ℕ → Option Stat → List ℕ
reply fs path none =
    close_head 404 (codes "ERRO") html 1024 ++ contents_or_none (fs.open_file (codes "404.html"))
reply fs path (some st) = reply_found fs path st.st_size st.st_mode
  where
    reply_found : FileSystem → List ℕ → ℕ → Mode → List ℕ
    reply_found fs path st_size Mode.directory =
        close_head 200 (codes "OK") html 99999
        ++ (dir_head path
            ++ (concat (map (λ name. dir_row name (entry_stat fs path name)) (fs.scandir path))
                ++ dir_foot))
    reply_found fs path st_size Mode.regular =
        close_head 200 (codes "OK") (epoll_file_type path) st_size
        ++ contents_or_none (fs.open_file path)
    reply_found fs path st_size Mode.special = []

concat-head :
    (req_no len : ℕ) (descp type : List ℕ)
    → concat (send_response_head req_no descp type len) ≡ close_head req_no descp type len
unfolding send_response_head
concat-head req_no len descp type = simp (append_assoc, append-nil)

concat-reply :
    (req_no len : ℕ) (descp type bytes : List ℕ) (blocks : List (List ℕ))
    → concat blocks ≡ bytes
    → concat (send_response_head req_no descp type len ++ blocks)
      ≡ close_head req_no descp type len ++ bytes
concat-reply req_no len descp type bytes blocks e =
    concat-append (send_response_head req_no descp type len) blocks
    ∙ ap₂ ◌++◌ (concat-head req_no len descp type) e

concat-send_file :
    (fs : FileSystem) (path : List ℕ)
    → concat (send_file fs path) ≡ contents_or_none (fs.open_file path)
unfolding send_file
concat-send_file fs path = elim (Option-cases (fs.open_file path)) [
  | inl e ↦ rw (e, send_file)
  | inr (file, e) ↦
      rw (e, send_file)
        (send_blocks_lem (length file) max_buff_size file (omega arith) (omega arith)).0
]

send_rows_lem :
    (fs : FileSystem) (path buff : List ℕ) (names : List (List ℕ))
    → concat (send_rows fs path buff names)
      ≡ buff ++ (concat (map (λ name. dir_row name (entry_stat fs path name)) names) ++ dir_foot)
unfolding send_rows
send_rows_lem fs path buff [] = append-nil _
send_rows_lem fs path buff (name ∷ names) =
    append_assoc buff _ _
    ∙ ap (λ l. buff ++ l)
        (ap (λ l. dir_row name (entry_stat fs path name) ++ l) (send_rows_lem fs path [] names)
          ∙ sym (append_assoc (dir_row name (entry_stat fs path name)) _ dir_foot))

html_type : get_file_type (codes ".html") ≡ html
unfolding get_file_type
html_type = refl

concat-found :
    (fs : FileSystem) (path : List ℕ) (st : Stat)
    → concat (found fs path st.st_size st.st_mode) ≡ reply fs path (some st)
unfolding found send_dir
concat-found fs path st = go st.st_mode
  where
    go :
        (mode : Mode)
        → concat (found fs path st.st_size mode)
          ≡ reply fs path (some (record { st_mode = mode; st_size = st.st_size }))
    go Mode.directory = rw html_type (
        concat-reply 200 99999 (codes "OK") html _ (send_dir fs path)
          (send_rows_lem fs path (dir_head path) (fs.scandir path)))
    go Mode.regular = rw (get_file_type-same path) (
        concat-reply 200 st.st_size (codes "OK") (epoll_file_type path) _ (send_file fs path)
          (concat-send_file fs path))
    go Mode.special = refl

concat-stat_reply :
    (fs : FileSystem) (path : List ℕ) (st : Option Stat)
    → concat (stat_reply fs path st) ≡ reply fs path st
unfolding stat_reply
concat-stat_reply fs path none = rw html_type (
    concat-reply 404 1024 (codes "ERRO") html _ (send_file fs (codes "404.html"))
      (concat-send_file fs (codes "404.html")))
concat-stat_reply fs path (some st) = concat-found fs path st

-- A request of fewer than 4096 bytes, whose method is `get` in upper or lower case, whose path has no NUL, stands
-- behind a slash and is encoded with every blank and `%` escaped, and whose words fit their buffers, is answered
-- with the bytes for the path before it was encoded.
pub cb_read_lem :
    (fs : FileSystem) (g e t : ℕ) (choice : (place byte : ℕ) → Choice) (path protocol more : List ℕ)
    → tolower g ≡ b'g'
    → tolower e ≡ b'e'
    → tolower t ≡ b't'
    → All IsWord (g ∷ e ∷ t ∷ [])
    → All IsByte path
    → ((k : ℕ) → choice k blank ≢ as_is)
    → ((k : ℕ) → choice k b'%' ≢ as_is)
    → length (encode choice path) < 1023
    → length protocol < 32
    → let input = request_line (g ∷ e ∷ t ∷ []) (encode choice path) (protocol ++ (cr ∷ more)) in
      length input < max_buff_size
      → (blocks : List (List ℕ)) × (cb_read fs input ≡ some blocks)
        × (concat blocks ≡ reply fs (path_or_dot path) (fs.stat (path_or_dot path)))
unfolding cb_read read_reply http_response
cb_read_lem fs g e t choice path protocol more hg he ht hm hp hb hq short_p short_v fits = (
  http_response fs (b'/' ∷ encode choice path),
  rw
      (
        take_all max_buff_size
            (request_line (g ∷ e ∷ t ∷ []) (encode choice path) (protocol ++ (cr ∷ more)))
            (omega arith),
        scan_head_lem g (e ∷ t ∷ []) (encode choice path) (protocol ++ (cr ∷ more)) hm
            (encode-IsWord choice path hp hb),
        hg,
        he,
        ht,
      )
      (unfold str_eq in refl),
  rw (file_path-encode choice path hp hq)
      (concat-stat_reply fs (path_or_dot path) (fs.stat (path_or_dot path))),
)
