-- ===== src/Echo/Epoll/Edge.antt =====
-- What `et_work` does with each event.
use linux_api_and_socket_pro.Common.{
  ℕ, ◌<◌, ◌≡◌, refl, ◌≢◌, true, ◌||◌, none, some, List, [], ◌∷◌, ◌++◌, map, arith, ◌==◌,
  if◌then◌else◌, ne_test, length, All,
}
use linux_api_and_socket_pro.Echo.Buffer.{toupper, Answer, bytes, end, failed}
use linux_api_and_socket_pro.Echo.Buffer.Upper.{upper_to_nul, echo_lem}
use linux_api_and_socket_pro.Echo.Epoll.{
  buff_size, new_buff, Call, write, ctl_del, close, Event, et_end, et_read, et_turn, et_loop,
  et_work,
}
use linux_api_and_socket_pro.Echo.Epoll.Level.{IsReady, new_buff-IsReady}
use linux_api_and_socket_pro.Common.{
  ℕ, ◌<◌, ◌≡◌, refl, ◌≢◌, true, ◌||◌, none, some, List, [], ◌∷◌, ◌++◌, map, arith, ◌==◌,
  if◌then◌else◌, ne_test, length, All,
}

-- A client with something to read: the chunks that `recv` gives, and the answer that is no bytes.
pub record Client : Type 0 where
  pub fd : ℕ
  pub chunks : List (List ℕ)
  pub last : Answer

abbrev pub event_of : Client → Event
event_of c = record {
  fd = c.fd;
  readable = true;
  accepted = none;
  answers = map bytes c.chunks ++ (c.last ∷ []);
}

-- an answer that ends the loop
abbrev pub IsLast : Answer → Type 0
IsLast (bytes _) = ⊥
IsLast _ = Unit

-- a chunk of at most five bytes, none of them NUL
abbrev pub IsChunk : List ℕ → Type 0
IsChunk c = (length c < buff_size) × All (λ b. b ≢ 0) c

-- how the loop ends: by nothing if there is no more to read now, else by closing
unfoldable pub et_last : ℕ → Answer → List Call
et_last fd (failed errno) = if (errno == 11) || (errno == 4) then [] else ctl_del fd ∷ close fd ∷ []
et_last fd _ = ctl_del fd ∷ close fd ∷ []

abbrev pub et_calls : Client → List Call
et_calls c = map (λ chunk. write c.fd (map toupper chunk)) c.chunks ++ et_last c.fd c.last

abbrev pub concat_calls : List (List Call) → List Call
concat_calls [] = []
concat_calls (calls ∷ more) = calls ++ concat_calls more

pub upper_to_nul_plain : (s : List ℕ) → All (λ b. b ≢ 0) s → upper_to_nul s ≡ map toupper s
unfolding upper_to_nul
upper_to_nul_plain [] h = refl
upper_to_nul_plain (c ∷ s) h = rw (ne_test c 0 h.0, upper_to_nul_plain s h.1) refl

et_read_lem :
    (fd : ℕ) (buff : List ℕ) (chunks : List (List ℕ)) (last : Answer)
    → IsReady buff
    → All IsChunk chunks
    → IsLast last
    → (b : List ℕ) × (et_read fd buff (map bytes chunks ++ (last ∷ []))
        ≡ some (map (λ chunk. write fd (map toupper chunk)) chunks ++ et_last fd last, b))
      × IsReady b
unfolding et_read et_end et_last
et_read_lem fd buff [] (bytes input) ready ok ends = absurd ends
et_read_lem fd buff [] end ready ok ends = (buff, refl, ready)
et_read_lem fd buff [] (failed errno) ready ok ends = (buff, refl, ready)
et_read_lem fd buff (chunk ∷ chunks) last (nul, len) ok ends =
    let (b, e, nul', len') = echo_lem buff chunk nul (omega (arith, ok.0.0, len)) in
    let (b', e', ready) = et_read_lem fd b chunks last (nul', omega (arith, len, len')) ok.1 ends in
    (b', rw (e, e', upper_to_nul_plain chunk ok.0.1, et_read) refl, ready)

et_loop_lem :
    (listenfd : ℕ) (buff : List ℕ) (clients : List Client)
    → IsReady buff
    → All (λ c. (c.fd ≢ listenfd) × (All IsChunk c.chunks × IsLast c.last)) clients
    → et_loop listenfd buff (map event_of clients) ≡ some (concat_calls (map et_calls clients))
unfolding et_loop et_turn
et_loop_lem listenfd buff [] ready ok = refl
et_loop_lem listenfd buff (c ∷ clients) ready ok =
    let (b, same, ready') = et_read_lem c.fd buff c.chunks c.last ready ok.0.1.0 ok.0.1.1 in
    rw (ne_test c.fd listenfd ok.0.0, same, et_loop_lem listenfd b clients ready' ok.1, et_loop)
      refl

-- In edge mode, with reads of at most five bytes, every client that has something to read is read until `recv`
-- gives no more: its chunks, if they hold no NUL, are sent back to it in upper case, one by one and in order, and
-- then it is closed if it has closed its side or if the error is not EAGAIN or EINTR.
pub et_work_lem :
    (listenfd : ℕ) (clients : List Client)
    → All (λ c. (c.fd ≢ listenfd) × (All IsChunk c.chunks × IsLast c.last)) clients
    → et_work listenfd (map event_of clients) ≡ some (concat_calls (map et_calls clients))
unfolding et_work
et_work_lem listenfd clients ok = et_loop_lem listenfd new_buff clients new_buff-IsReady ok
