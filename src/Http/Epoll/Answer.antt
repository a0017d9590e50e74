-- ===== src/Http/Epoll/Answer.antt =====
-- The bytes that answer a request, and the blocks in which they are sent.
use linux_api_and_socket_pro.Common.{
  ℕ, ◌<◌, ◌≡◌, refl, ap, ap₂, ◌∙◌, Option, none, some, List, [], ◌∷◌, ◌++◌, map, codes, length, All,
}
use linux_api_and_socket_pro.Http.Bytes.{blank}
use linux_api_and_socket_pro.Http.FileType.{get_file_type}
use linux_api_and_socket_pro.Http.Reply.Head.{
  concat, concat-append, status_line, type_line, length_line, concat-send_response_head,
}
use linux_api_and_socket_pro.Http.Reply.Body.{
  contents_or_none, FitsFile, send_dir_lem, concat-send_file,
}
use linux_api_and_socket_pro.Http.Files.{Mode, Stat, FileSystem}
use linux_api_and_socket_pro.Http.Reply.{
  end_of_line, send_response_head, send_file, dir_head, dir_foot, dir_row, entry_stat, send_dir,
}
use linux_api_and_socket_pro.Http.Epoll.{
  scan_request, request_path, respond_found, respond, http_get_request,
}
use linux_api_and_socket_pro.Http.Epoll.Requests.{IsWord, scan_request_lem}

-- A path stands for itself, and the empty one for the current directory.
abbrev pub path_or_dot : List ℕ → List ℕ
path_or_dot [] = codes "."
path_or_dot (c ∷ path) = c ∷ path

-- the line of a request for `/` and `path`
abbrev pub request_line : List ℕ → List ℕ → List ℕ → List ℕ
request_line method path version = method ++ (blank ∷ ((b'/' ∷ path) ++ (blank ∷ version)))

-- the bytes of a head
abbrev pub head : ℕ → List ℕ → List ℕ → ℕ → List ℕ
head req_no descp type len =
    (status_line req_no descp ++ end_of_line)
    ++ ((type_line type ++ end_of_line)
        ++ ((length_line len ++ end_of_line) ++ (end_of_line ++ [])))

abbrev pub html : List ℕ
html = codes "text/html; charset=utf-8"

-- The bytes of the answer for a path that exists: a directory page behind a head of 99999 bytes, or the
-- file; nothing for any other kind of file.
abbrev pub answer_found : FileSystem → List ℕ → ℕ → Mode → List ℕ
answer_found fs path st_size Mode.directory =
    head 200 (codes "OK") html 99999
    ++ (dir_head path
        ++ (concat (map (λ name. dir_row name (entry_stat fs path name)) (fs.scandir path))
            ++ dir_foot))
answer_found fs path st_size Mode.regular =
    head 200 (codes "OK") (get_file_type path) st_size ++ contents_or_none (fs.open_file path)
answer_found fs path st_size Mode.special = []

-- The bytes of the answer for a path, by what `stat` says of it: for one that does not exist, the page
-- 404.html behind a head of 1024 bytes.
abbrev pub answer : FileSystem → List ℕ → Option Stat → List ℕ
answer fs path none =
    head 404 (codes "ERRO") html 1024 ++ contents_or_none (fs.open_file (codes "404.html"))
answer fs path (some st) = answer_found fs path st.st_size st.st_mode

concat-answer :
    (req_no len : ℕ) (descp type bytes : List ℕ) (blocks : List (List ℕ))
    → concat blocks ≡ bytes
    → concat (send_response_head req_no descp type len ++ blocks)
      ≡ head req_no descp type len ++ bytes
concat-answer req_no len descp type bytes blocks e =
    concat-append (send_response_head req_no descp type len) blocks
    ∙ ap₂ ◌++◌ (concat-send_response_head req_no len descp type) e

html_type : get_file_type (codes ".html") ≡ html
unfolding get_file_type
html_type = refl

-- the rows that are sent behind a head
rows_behind :
    (top : List (List ℕ)) (sent : Option (List (List ℕ))) (rows : List (List ℕ))
    → sent ≡ some rows
    → ◌≡◌ {A = Option (List (List ℕ))}
        (elim sent [ none ↦ none | some rs ↦ some (top ++ rs) ])
        (some (top ++ rows))
rows_behind top sent rows e = rw e refl

respond_found_lem :
    (fs : FileSystem) (path : List ℕ) (st_size : ℕ) (mode : Mode)
    → All (FitsFile path) (fs.scandir path)
    → (blocks : List (List ℕ)) × (respond_found fs path st_size mode ≡ some blocks)
      × (concat blocks ≡ answer_found fs path st_size mode)
unfolding respond_found
respond_found_lem fs path st_size Mode.directory fits =
    let (rows, e, bytes, calls) = send_dir_lem fs path fits in
    (
      send_response_head 200 (codes "OK") html 99999 ++ rows,
      rows_behind (send_response_head 200 (codes "OK") (get_file_type (codes ".html")) 99999)
            (send_dir fs path) rows e
          ∙ ap (λ type. some (send_response_head 200 (codes "OK") type 99999 ++ rows)) html_type,
      concat-answer 200 99999 (codes "OK") html _ rows bytes,
    )
respond_found_lem fs path st_size Mode.regular fits = (
  send_response_head 200 (codes "OK") (get_file_type path) st_size ++ send_file fs path,
  refl,
  concat-answer 200 st_size (codes "OK") (get_file_type path) _ (send_file fs path)
      (concat-send_file fs path),
)
respond_found_lem fs path st_size Mode.special fits = ([], refl, refl)

respond_lem :
    (fs : FileSystem) (path : List ℕ) (found : Option Stat)
    → All (FitsFile path) (fs.scandir path)
    → (blocks : List (List ℕ)) × (respond fs path found ≡ some blocks)
      × (concat blocks ≡ answer fs path found)
unfolding respond
respond_lem fs path none fits = (
  send_response_head 404 (codes "ERRO") html 1024 ++ send_file fs (codes "404.html"),
  ap
      (λ type.
        some (send_response_head 404 (codes "ERRO") type 1024 ++ send_file fs (codes "404.html")))
      html_type,
  concat-answer 404 1024 (codes "ERRO") html _ (send_file fs (codes "404.html"))
      (concat-send_file fs (codes "404.html")),
)
respond_lem fs path (some st) fits = respond_found_lem fs path st.st_size st.st_mode fits

request_path_lem : (path : List ℕ) → request_path (b'/' ∷ path) ≡ path_or_dot path
unfolding request_path
request_path_lem [] = refl
request_path_lem (c ∷ path) = refl

pub http_get_request_lem :
    (fs : FileSystem) (m : ℕ) (method path version : List ℕ)
    → All IsWord (m ∷ method)
    → All IsWord path
    → length (m ∷ method) < 10
    → All (FitsFile (path_or_dot path)) (fs.scandir (path_or_dot path))
    → (blocks : List (List ℕ)) × (http_get_request fs (request_line (m ∷ method) path version)
        ≡ some blocks)
      × (concat blocks ≡ answer fs (path_or_dot path) (fs.stat (path_or_dot path)))
unfolding http_get_request
http_get_request_lem fs m method path version hm hp short fits =
    let (blocks, e, bytes) = respond_lem fs (path_or_dot path) (fs.stat (path_or_dot path)) fits in
    (blocks, ap (λ q. respond fs q (fs.stat q)) found ∙ e, bytes)
  where
    found :
        request_path (scan_request (request_line (m ∷ method) path version)).1 ≡ path_or_dot path
    found =
        ap (λ r. request_path r.1) (scan_request_lem m method path version hm hp short)
        ∙ request_path_lem path
