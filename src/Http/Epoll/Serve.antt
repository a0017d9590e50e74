-- ===== src/Http/Epoll/Serve.antt =====
-- What `do_read` does with a connection.
use linux_api_and_socket_pro.Common.{
  ℕ, suc, ◌+◌, ◌<◌, ◌≡◌, refl, ap, ◌∙◌, ◌≢◌, Bool, false, none, some, List, [], ◌∷◌, ◌++◌, map,
  append_assoc, arith, if◌then◌else◌, length, All,
}
use linux_api_and_socket_pro.Http.Bytes.{cr, lf, tolower}
use linux_api_and_socket_pro.Http.GetLine.{Socket, get_line}
use linux_api_and_socket_pro.Http.GetLine.Lines.{crlf, IsPlain, get_line_lem}
use linux_api_and_socket_pro.Http.Reply.Head.{concat, map-some-append}
use linux_api_and_socket_pro.Http.Files.{FileSystem}
use linux_api_and_socket_pro.Http.Reply.{max_buff_size}
use linux_api_and_socket_pro.Http.Epoll.{
  http_get_request, is_get, Call, send, ctl_del, close, abort, overrun, read_rest, read_request,
  disconnect, do_read,
}
use linux_api_and_socket_pro.Http.Epoll.Requests.{IsWord, all_there, read_on_all}
use linux_api_and_socket_pro.Http.Epoll.Answer.{
  path_or_dot, request_line, answer, http_get_request_lem,
}

-- the calls for a request that has been read
abbrev finished : FileSystem → Bool → ℕ → List ℕ × Socket → List Call × Socket
finished fs deleted fd (line, rest) = (
  if is_get line
      then (elim (http_get_request fs line) [
        | none ↦ overrun ∷ []
        | some blocks ↦ map (send fd) blocks ++ disconnect deleted fd
      ])
      else [],
  rest,
)

length-all_there : (s : List ℕ) → length (all_there s) ≡ length s
length-all_there [] = refl
length-all_there (c ∷ s) = ap suc (length-all_there s)

append-ne : (xs : List ℕ) (y : ℕ) (ys : List ℕ) → xs ++ (y ∷ ys) ≢ []
append-ne [] y ys h = cc
append-ne (x ∷ xs) y ys h = cc

read_rest_all :
    (line : List ℕ) (s : List ℕ) → line ≢ [] → read_rest (line, all_there s) ≡ some (line, [])
unfolding read_rest
read_rest_all [] s ne = absurd (ne refl)
read_rest_all (c ∷ cs) s ne =
    rw (read_rest, read_on_all (length (all_there s) + 1) s (omega (arith, length-all_there s)))

-- A request line, and whatever bytes follow it: the line is kept, and everything behind it is read too.
read_request_lem :
    (body more : List ℕ)
    → All IsPlain body
    → length body < 1023
    → read_request (all_there (body ++ (cr ∷ lf ∷ more))) ≡ some (body ++ (lf ∷ []), [])
unfolding read_request
read_request_lem body more plain fits =
    rw
      (
        map-some-append body (cr ∷ lf ∷ more),
        get_line_lem max_buff_size body crlf (all_there more) plain tt fits,
      )
      (read_rest_all (body ++ (lf ∷ [])) more (append-ne body lf []))

request_line-append :
    (method path version s : List ℕ)
    → request_line method path version ++ s ≡ request_line method path (version ++ s)
request_line-append method path version s = simp append_assoc

do_read-of-read :
    (fs : FileSystem) (deleted : Bool) (fd : ℕ) (s : Socket) (line : List ℕ)
    → read_request s ≡ some (line, [])
    → do_read fs deleted fd s ≡ some (finished fs deleted fd (line, []))
unfolding do_read
do_read-of-read fs deleted fd s line e = rw (do_read, e)

-- A connection of which all bytes that the client sends have come before `do_read` is called, with no failed `recv`
-- among them, and which stays silent then: its first line fits the buffer, ends in CR LF, and is a method of at most 9
-- bytes that begins with `get`, in upper or lower case, a slash with a path, and a rest, with one blank between each and
-- no NUL in the first two; and the path, with a slash and the name of any entry that `scandir` gives for it, has fewer
-- than 1024 bytes. It is answered with the bytes for the path, then removed from the epoll instance and closed, once,
-- or the program ends if the removal fails; the bytes behind the line are read and dropped.
pub serve_get :
    (fs : FileSystem) (deleted : Bool) (fd g e t : ℕ) (method path version more : List ℕ)
    → tolower g ≡ b'g'
    → tolower e ≡ b'e'
    → tolower t ≡ b't'
    → All IsWord (g ∷ e ∷ t ∷ method)
    → All IsWord path
    → length method < 7
    → All IsPlain (request_line (g ∷ e ∷ t ∷ method) path version)
    → length (request_line (g ∷ e ∷ t ∷ method) path version) < 1023
    → All
        (λ name. length (path_or_dot path ++ (b'/' ∷ name)) < 1024)
        (fs.scandir (path_or_dot path))
    → (blocks : List (List ℕ)) × (do_read fs deleted fd
          (all_there (request_line (g ∷ e ∷ t ∷ method) path version ++ (cr ∷ lf ∷ more)))
        ≡ some
            (map (send fd) blocks ++ (ctl_del fd ∷ (if deleted then close fd else abort) ∷ []), []))
      × (concat blocks ≡ answer fs (path_or_dot path) (fs.stat (path_or_dot path)))
unfolding disconnect is_get
serve_get fs deleted fd g e t method path version more hg he ht hm hp short plain fits names =
    let (blocks, e_blocks, bytes) =
      http_get_request_lem fs g (e ∷ t ∷ method) path (version ++ (lf ∷ [])) hm hp (omega arith)
        names in
    (
      blocks,
      do_read-of-read fs deleted fd _ _
            (read_request_lem (request_line (g ∷ e ∷ t ∷ method) path version) more plain fits)
          ∙ ap (λ l. some (finished fs deleted fd (l, [])))
              (request_line-append (g ∷ e ∷ t ∷ method) path version (lf ∷ []))
          ∙ rw (hg, he, ht, e_blocks),
      bytes,
    )

-- A connection of which all bytes have come before `do_read` is called, and whose first line fits the buffer, ends in CR
-- LF and does not begin with `get`, and one that is closed before it sends a byte, get no answer and no call: they are
-- read to the end, and neither closed nor removed from the epoll instance.
pub leave_other :
    (fs : FileSystem) (deleted : Bool) (fd : ℕ) (body more : List ℕ)
    → All IsPlain body
    → length body < 1023
    → is_get (body ++ (lf ∷ [])) ≡ false
    → (do_read fs deleted fd (all_there (body ++ (cr ∷ lf ∷ more))) ≡ some ([], []))
      × (do_read fs deleted fd [] ≡ some ([], []))
leave_other fs deleted fd body more plain fits other = (
  do_read-of-read fs deleted fd _ _ (read_request_lem body more plain fits) ∙ rw other,
  unfold do_read get_line is_get in refl,
)
