-- ===== src/Http/Tests.antt =====
-- Runs of the servers on small inputs, and the theorems at them.
use linux_api_and_socket_pro.Common.{
  ℕ, ◌+◌, ◌≤◌, ◌≡◌, refl, true, false, Option, none, some, List, [], ◌∷◌, ◌++◌, map, arith, ◌==◌,
  if◌then◌else◌, codes, All, total,
}
use linux_api_and_socket_pro.Http.Epoll.{is_get, send, ctl_del, close, read_on, do_read}
use linux_api_and_socket_pro.Http.Loop.{Event, epoll_run}
use linux_api_and_socket_pro.Http.Loop.Closing.{closes, reports, reports_in, closes-epoll_run}
use linux_api_and_socket_pro.Http.Libevent.Serve.{reply, cb_read_lem}
use linux_api_and_socket_pro.Http.Bytes.{lf, blank, str_eq, tolower, decimal}
use linux_api_and_socket_pro.Http.GetLine.{get_line}
use linux_api_and_socket_pro.Http.GetLine.Lines.{
  cr_before, ending, get_line_lem, Fits, get_line_bounds,
}
use linux_api_and_socket_pro.Http.FileType.{plain_text, get_file_type}
use linux_api_and_socket_pro.Http.FileType.Extension.{type_in, get_file_type_lem}
use linux_api_and_socket_pro.Http.Decode.{decode_str}
use linux_api_and_socket_pro.Http.Decode.RoundTrip.{
  Choice, as_is, escaped, encode, decode_str-encode,
}
use linux_api_and_socket_pro.Http.Files.{Mode, Stat, FileSystem}
use linux_api_and_socket_pro.Http.Reply.{send_response_head, send_file}
use linux_api_and_socket_pro.Http.Reply.Head.{concat, read_lines, read_lines-send_response_head}
use linux_api_and_socket_pro.Http.Reply.Body.{IsBlock, send_file_lem}
use linux_api_and_socket_pro.Http.Epoll.Requests.{all_there, read_on_all}
use linux_api_and_socket_pro.Http.Epoll.Answer.{answer}
use linux_api_and_socket_pro.Http.Epoll.Serve.{serve_get, leave_other}
use linux_api_and_socket_pro.Http.Libevent.Life.{
  is_allocate, is_release, is_new, is_free, is_error, life, cb_event_lem,
}
use linux_api_and_socket_pro.Http.Libevent.{cb_read}

-- A directory `d` with one file `a` of three bytes; any other name does not exist.
abbrev stat_of : List ℕ → Option Stat
stat_of p =
    if str_eq p (codes "d")
    then some (record { st_mode = Mode.directory; st_size = 0 })
    else if str_eq p (codes "d/a")
    then some (record { st_mode = Mode.regular; st_size = 3 })
    else none

abbrev open_of : List ℕ → Option (List ℕ)
open_of p = if str_eq p (codes "d/a") then some (codes "xyz") else none

abbrev names_of : List ℕ → List (List ℕ)
names_of p = if str_eq p (codes "d") then codes "a" ∷ [] else []

abbrev disk : FileSystem
disk = record {
  stat = stat_of;
  open_file = open_of;
  scandir = names_of;
  stale = λ p. record { st_mode = Mode.special; st_size = 0 };
}

get_line_example :
    get_line 1024 (map some (codes "ab") ++ ending (cr_before b'c') (some b'd' ∷ []))
    ≡ (b'a' ∷ b'b' ∷ lf ∷ [], some b'c' ∷ some b'd' ∷ [])
get_line_example =
    get_line_lem 1024 (codes "ab") (cr_before b'c') (some b'd' ∷ []) (omega arith) (omega arith)
      (omega arith)

get_line_bounds_test :
    Fits 3 (some b'a' ∷ none ∷ some b'b' ∷ []) (get_line 4 (some b'a' ∷ none ∷ some b'b' ∷ []))
get_line_bounds_test = get_line_bounds 4 (some b'a' ∷ none ∷ some b'b' ∷ [])

get_file_type_test :
    (get_file_type (codes "a.b.png") ≡ codes "image/png")
    × (get_file_type (codes "png") ≡ plain_text)
unfolding type_in str_eq
get_file_type_test = get_file_type_lem (codes "a.b") (codes "png") (omega arith)

-- blanks and `%` are escaped, and so is the first byte
abbrev blanks : (place byte : ℕ) → Choice
blanks k c =
    if c == blank
    then escaped true true
    else if c == b'%'
    then escaped false true
    else if k == 0
    then escaped true false
    else as_is

decode_str-encode_example : decode_str (codes "%4b%25%20K") ≡ codes "K% K"
unfolding encode
decode_str-encode_example = decode_str-encode blanks (codes "K% K") (omega arith) (λ k h. cc)

read_lines-send_response_head_example :
    read_lines 4 1024 (
      map some (concat (send_response_head 200 (codes "OK") (codes "text/css") 3))
      ++ (some b'x' ∷ []))
    ≡ (
      codes "http/1.1 200 OK\n"
          ∷ codes "Content-Type:text/css\n"
          ∷ codes "Content-Length:3\n"
          ∷ codes "\n"
          ∷ [],
      some b'x' ∷ [],
    )
unfolding decimal
read_lines-send_response_head_example =
    read_lines-send_response_head 1024 200 3 (codes "OK") (codes "text/css") (some b'x' ∷ [])
      (omega arith) (omega arith) (omega arith) (omega arith) (omega arith)

send_file_test :
    (concat (send_file disk (codes "d/a")) ≡ codes "xyz")
    × All (IsBlock 1024) (send_file disk (codes "d/a"))
send_file_test = send_file_lem disk (codes "d/a") (codes "xyz") (unfold str_eq in refl)

read_on_all_test : read_on 10 (all_there (codes "a\r\n\r\nb")) ≡ some []
read_on_all_test = read_on_all 10 (codes "a\r\n\r\nb") (omega arith)

serve_get_example :
    (blocks : List (List ℕ)) × (do_read disk true 5
        (all_there (codes "GET /d/a HTTP/1.1\r\nHost: h\r\n\r\n"))
      ≡ some (map (send 5) blocks ++ (ctl_del 5 ∷ close 5 ∷ []), []))
    × (concat blocks
        ≡ answer disk (codes "d/a") (some (record { st_mode = Mode.regular; st_size = 3 })))
unfolding str_eq
serve_get_example =
    serve_get disk true 5 b'G' b'E' b'T' [] (codes "d/a") (codes "HTTP/1.1")
      (codes "Host: h\r\n\r\n") (unfold tolower in refl) (unfold tolower in refl)
      (unfold tolower in refl) (omega arith) (omega arith) (omega arith) (omega arith) (omega arith)
      (omega arith)

leave_other_example :
    (do_read disk true 5 (all_there (codes "POST /d HTTP/1.1\r\n\r\n")) ≡ some ([], []))
    × (do_read disk true 5 [] ≡ some ([], []))
leave_other_example =
    leave_other disk true 5 (codes "POST /d HTTP/1.1") (codes "\r\n") (omega arith) (omega arith)
      (unfold is_get tolower in refl)

-- one new connection, and one request
abbrev batch : List Event
batch =
    record { data_fd = 3; accepted = some 6; ctl = true; flags = 2; incoming = [] }
    ∷ record {
      data_fd = 5;
      accepted = none;
      ctl = true;
      flags = 0;
      incoming = map some (codes "GET /d/a x\n");
    }
    ∷ []

closes-epoll_run_example : closes 5 (epoll_run disk true true 2 3 (batch ∷ batch ∷ [])) ≤ 2
unfolding reports reports_in
closes-epoll_run_example = closes-epoll_run disk true true 2 3 5 (batch ∷ batch ∷ [])

cb_event_test :
    (total is_allocate (life 0x11) ≡ 1)
    × (total is_release (life 0x11) ≡ 1)
    × (total is_new (life 0x11) ≡ 1)
    × (total is_free (life 0x11) ≡ 1)
    × (total is_error (life 0x11) ≡ 0)
cb_event_test = cb_event_lem 0x11

cb_read_example :
    (blocks : List (List ℕ)) × (cb_read disk (codes "get /%64/a HTTP/1.1\r\n\r\n") ≡ some blocks)
    × (concat blocks
        ≡ reply disk (codes "d/a") (some (record { st_mode = Mode.regular; st_size = 3 })))
unfolding encode str_eq
cb_read_example =
    cb_read_lem disk b'g' b'e' b't'
      (λ k c. if c == b'd' then escaped true true else blanks (k + 1) c) (codes "d/a")
      (codes "HTTP/1.1") (codes "\n\r\n") (unfold tolower in refl) (unfold tolower in refl)
      (unfold tolower in refl) (omega arith) (omega arith) (λ k h. cc) (λ k h. cc) (omega arith)
      (omega arith) (omega arith)
