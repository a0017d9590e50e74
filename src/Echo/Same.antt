-- ===== src/Echo/Same.antt =====
-- The edge modes of epoll_server.c and epoll_server2.c beside each other.
use linux_api_and_socket_pro.Common.{
  ℕ, ◌≡◌, refl, sym, ap, ap₂, ◌∙◌, Option, none, some, List, [], ◌∷◌, ◌++◌, map, arith,
}
use linux_api_and_socket_pro.Echo.Buffer.{toupper, Answer, bytes, end, failed}
use linux_api_and_socket_pro.Echo.Epoll.{
  Call, ctl_add, set_nonblocking, write, ctl_del, close, exits,
}
use linux_api_and_socket_pro.Echo.Epoll.Edge.{Client, et_last, et_calls, concat_calls}
use linux_api_and_socket_pro.Echo.Drain.Twice.{drain_last, drain_calls}

-- what is written to descriptors, in order
abbrev pub written : List Call → List (ℕ × List ℕ)
written [] = []
written (write fd block ∷ calls) = (fd, block) ∷ written calls
written (_ ∷ calls) = written calls

-- the same of a run that may fail
abbrev pub all_written : Option (List Call) → Option (List (ℕ × List ℕ))
all_written none = none
all_written (some calls) = some (written calls)

pub written-append : (xs ys : List Call) → written (xs ++ ys) ≡ written xs ++ written ys
written-append [] ys = refl
written-append (write fd block ∷ xs) ys = ap (λ l. (fd, block) ∷ l) (written-append xs ys)
written-append (ctl_add fd et ∷ xs) ys = written-append xs ys
written-append (set_nonblocking fd ∷ xs) ys = written-append xs ys
written-append (ctl_del fd ∷ xs) ys = written-append xs ys
written-append (close fd ∷ xs) ys = written-append xs ys
written-append (exits ∷ xs) ys = written-append xs ys

same_last :
    (fd : ℕ) (last : Answer)
    → (written (et_last fd last) ≡ []) × (written (drain_last fd last) ≡ [])
unfolding et_last
same_last fd (bytes input) = (refl, refl)
same_last fd end = (refl, refl)
same_last fd (failed errno) = (ground arith, ground arith)

same_client : (c : Client) → written (et_calls c) ≡ written (drain_calls c)
same_client c =
    written-append (map (λ chunk. write c.fd (map toupper chunk)) c.chunks) (et_last c.fd c.last)
    ∙ ap (λ l. written (map (λ chunk. write c.fd (map toupper chunk)) c.chunks) ++ l)
        ((same_last c.fd c.last).0 ∙ sym (same_last c.fd c.last).1)
    ∙ sym (
        written-append (map (λ chunk. write c.fd (map toupper chunk)) c.chunks)
          (drain_last c.fd c.last))

pub same_clients :
    (clients : List Client)
    → written (concat_calls (map et_calls clients))
      ≡ written (concat_calls (map drain_calls clients))
same_clients [] = refl
same_clients (c ∷ clients) =
    written-append (et_calls c) _
    ∙ ap₂ ◌++◌ (same_client c) (same_clients clients)
    ∙ sym (written-append (drain_calls c) _)
