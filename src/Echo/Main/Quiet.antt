-- ===== src/Echo/Main/Quiet.antt =====
-- The edge modes of both epoll servers do not end the program.
use linux_api_and_socket_pro.Common.{
  ℕ, ◌≡◌, refl, Bool, true, false, ◌||◌, List, [], ◌∷◌, ◌++◌, map, ◌==◌, if◌then◌else◌,
}
use linux_api_and_socket_pro.Echo.Buffer.{toupper, Answer, bytes, end, failed}
use linux_api_and_socket_pro.Echo.Epoll.{
  Call, ctl_add, set_nonblocking, write, ctl_del, close, exits, exited,
}
use linux_api_and_socket_pro.Echo.Epoll.Edge.{Client, et_last, et_calls, concat_calls}
use linux_api_and_socket_pro.Echo.Drain.Twice.{drain_last, drain_calls}

abbrev pub edge_calls : List Client → List Call
edge_calls clients = concat_calls (map et_calls clients)

abbrev pub drained : List Client → List Call
drained clients = concat_calls (map drain_calls clients)

exited-append :
    (xs ys : List Call) → exited xs ≡ false → exited ys ≡ false → exited (xs ++ ys) ≡ false
unfolding exited
exited-append [] ys hx hy = hy
exited-append (exits ∷ xs) ys hx hy = hx
exited-append (write fd block ∷ xs) ys hx hy = exited-append xs ys hx hy
exited-append (ctl_add fd enable_et ∷ xs) ys hx hy = exited-append xs ys hx hy
exited-append (set_nonblocking fd ∷ xs) ys hx hy = exited-append xs ys hx hy
exited-append (ctl_del fd ∷ xs) ys hx hy = exited-append xs ys hx hy
exited-append (close fd ∷ xs) ys hx hy = exited-append xs ys hx hy

exited-writes :
    (fd : ℕ) (chunks : List (List ℕ))
    → exited (map (λ chunk. write fd (map toupper chunk)) chunks) ≡ false
unfolding exited
exited-writes fd [] = refl
exited-writes fd (chunk ∷ chunks) = exited-writes fd chunks

exited-last :
    (fd : ℕ) (last : Answer)
    → (exited (et_last fd last) ≡ false) × (exited (drain_last fd last) ≡ false)
unfolding exited et_last
exited-last fd (bytes input) = (refl, refl)
exited-last fd end = (refl, refl)
exited-last fd (failed errno) = (by_test ((errno == 11) || (errno == 4)), by_test' (errno == 11))
  where
    by_test : (b : Bool) → exited (if b then [] else ctl_del fd ∷ close fd ∷ []) ≡ false
    by_test true = refl
    by_test false = refl

    by_test' : (b : Bool) → exited (if b then [] else close fd ∷ []) ≡ false
    by_test' true = refl
    by_test' false = refl

pub exited-calls :
    (clients : List Client)
    → (exited (edge_calls clients) ≡ false) × (exited (drained clients) ≡ false)
unfolding exited
exited-calls [] = (refl, refl)
exited-calls (c ∷ clients) =
    let rest = exited-calls clients in
    (
      exited-append (et_calls c) (edge_calls clients)
          (exited-append (map (λ chunk. write c.fd (map toupper chunk)) c.chunks)
            (et_last c.fd c.last) (exited-writes c.fd c.chunks) (exited-last c.fd c.last).0)
          rest.0,
      exited-append (drain_calls c) (drained clients)
          (exited-append (map (λ chunk. write c.fd (map toupper chunk)) c.chunks)
            (drain_last c.fd c.last) (exited-writes c.fd c.chunks) (exited-last c.fd c.last).1)
          rest.1,
    )
