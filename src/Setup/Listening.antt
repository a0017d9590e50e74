-- ===== src/Setup/Listening.antt =====
-- A server goes on with a listening socket, or ends.
use linux_api_and_socket_pro.Common.{
  ℕ, ◌%◌, ◌^◌, ◌≡◌, refl, Bool, true, false, ◌&&◌, Option, none, some, List, [], ◌∷◌, ltb, leb,
  ◌==◌, if◌then◌else◌, ==_refl,
}
use linux_api_and_socket_pro.Setup.{
  Os, Call, bind, listen, usage, exits, aborts, htons, bind_listen, before, open_reusable,
  poll_setup, select_setup, epoll_setup, epoll2_setup, init, thread_setup, fork_setup, mtlt_socket,
  mtlt_setup, http_socket, http_setup,
}

-- what has become of the last socket that was bound
pub data Stage : Type 0 where
  unbound : Stage
  bound : (fd port : ℕ) → Stage
  listening : (fd port : ℕ) → Stage

-- `listen` of a socket that is bound
abbrev pub listened : Stage → ℕ → Stage
listened (bound fd port) fd' = if fd == fd' then listening fd port else bound fd port
listened stage fd' = stage

abbrev pub after_call : Stage → Call → Stage
after_call stage (bind (some fd) port) = bound fd port
after_call stage (listen fd backlog) = listened stage fd
after_call stage _ = stage

-- the calls, each of which has succeeded
unfoldable pub stage_of : Stage → List Call → Stage
stage_of stage [] = stage
stage_of stage (c ∷ calls) = stage_of (after_call stage c) calls

-- the last call ends the program
unfoldable pub ends : List Call → Bool
ends [] = false
ends (exits ∷ []) = true
ends (aborts ∷ []) = true
ends (usage ∷ []) = true
ends (c ∷ calls) = ends calls

-- the socket to go on with
abbrev pub opens : Os → Option ℕ
opens os = if os.binds && os.listens then os.socket else none

-- what the calls have led to: a socket that is bound to the port and listens, or the end of the program
abbrev pub Led : (port : ℕ) → Option ℕ → List Call → Type 0
Led port (some fd) calls = stage_of unbound calls ≡ listening fd port
Led port none calls = ends calls ≡ true

-- The calls open this socket at this port, or end the program where there is none.
abbrev pub IsOpening : (port : ℕ) → Option ℕ → List Call × Option ℕ → Type 0
IsOpening port expected r = (r.1 ≡ expected) × Led port r.1 r.0

-- the servers whose set-up checks each call, or `bind` and `listen` at least
pub data Program : Type 0 where
  poll_server select_server epoll_server epoll_server2 : Program
  server_thread server_fork chat_server : Program
  mtlt : (argc port : ℕ) → Program

abbrev pub setup : Program → Os → List Call × Option ℕ
setup poll_server = poll_setup
setup select_server = select_setup
setup epoll_server = epoll_setup
setup epoll_server2 = epoll2_setup
setup server_thread = thread_setup
setup server_fork = fork_setup
setup chat_server = init
setup (mtlt argc port) = mtlt_setup argc port

-- the socket to go on with, which one server opens only if it has an address and a port
abbrev pub opens_of : Program → Os → Option ℕ
opens_of (mtlt argc port) os = if leb argc 2 then none else opens os
opens_of p os = opens os

-- the port; that of the chat server is 66666 less 2^16
abbrev pub port_of : Program → ℕ
port_of chat_server = 1130
port_of (mtlt argc port) = port % 2 ^ 16
port_of _ = 9999

some_none : {A : Type 0} {fd : ℕ} → some fd ≡ none → A
some_none {A} {fd} e = absurd (impossible e)
  where
    impossible : some fd ≡ none → ⊥
    impossible e = cc

-- a socket that is bound and listens
opened : (fd port : ℕ) → listened (bound fd port) fd ≡ listening fd port
opened fd port = rw (==_refl fd) refl

abbrev nothing : Option ℕ
nothing = none

no_socket : (b l : Bool) → nothing ≡ (if b && l then nothing else nothing)
no_socket true true = refl
no_socket true false = refl
no_socket false l = refl

abbrev os_of : Option ℕ → (binds listens : Bool) → Os
os_of s b l = record { socket = s; binds = b; listens = l }

open_reusable-IsOpening :
    (port backlog : ℕ) (s : Option ℕ) (b l : Bool)
    → IsOpening (port % 2 ^ 16) (opens (os_of s b l)) (open_reusable port backlog (os_of s b l))
unfolding open_reusable bind_listen before htons stage_of ends
open_reusable-IsOpening port backlog none b l = (no_socket b l, refl)
open_reusable-IsOpening port backlog (some fd) true true = (refl, opened fd (port % 2 ^ 16))
open_reusable-IsOpening port backlog (some fd) true false = (refl, refl)
open_reusable-IsOpening port backlog (some fd) false l = (refl, refl)

thread_setup-IsOpening :
    (s : Option ℕ) (b l : Bool) → IsOpening 9999 (opens (os_of s b l)) (thread_setup (os_of s b l))
unfolding thread_setup bind_listen before htons stage_of ends
thread_setup-IsOpening none b l = (no_socket b l, refl)
thread_setup-IsOpening (some fd) true true = (refl, opened fd 9999)
thread_setup-IsOpening (some fd) true false = (refl, refl)
thread_setup-IsOpening (some fd) false l = (refl, refl)

fork_setup-IsOpening :
    (s : Option ℕ) (b l : Bool) → IsOpening 9999 (opens (os_of s b l)) (fork_setup (os_of s b l))
unfolding fork_setup thread_setup htons stage_of ends
fork_setup-IsOpening none b l = (no_socket b l, refl)
fork_setup-IsOpening (some fd) b l = thread_setup-IsOpening (some fd) b l

mtlt_socket-IsOpening :
    (port : ℕ) (s : Option ℕ) (b l : Bool)
    → IsOpening (port % 2 ^ 16) (opens (os_of s b l)) (mtlt_socket port (os_of s b l))
unfolding mtlt_socket bind_listen before htons stage_of ends
mtlt_socket-IsOpening port none b l = (no_socket b l, refl)
mtlt_socket-IsOpening port (some fd) true true = (refl, opened fd (port % 2 ^ 16))
mtlt_socket-IsOpening port (some fd) true false = (refl, refl)
mtlt_socket-IsOpening port (some fd) false l = (refl, refl)

no_arguments :
    (port : ℕ) (few : Bool) (r : List Call × Option ℕ) (expected : Option ℕ)
    → IsOpening port expected r
    → IsOpening port (if few then none else expected) (if few then (usage ∷ [], none) else r)
unfolding ends
no_arguments port true r expected h = (refl, refl)
no_arguments port false r expected h = h

-- Each of these servers goes on exactly if `socket`, `bind` and `listen` have succeeded, mtlt.cpp only with more than
-- two arguments; the socket that it goes on
-- with is then bound to its port and listens. Otherwise its last call ends the program.
pub setup-IsOpening : (p : Program) (os : Os) → IsOpening (port_of p) (opens_of p os) (setup p os)
unfolding poll_setup select_setup epoll_setup epoll2_setup init mtlt_setup
setup-IsOpening poll_server os = open_reusable-IsOpening 9999 5 os.socket os.binds os.listens
setup-IsOpening select_server os = open_reusable-IsOpening 9999 5 os.socket os.binds os.listens
setup-IsOpening epoll_server os = open_reusable-IsOpening 9999 5 os.socket os.binds os.listens
setup-IsOpening epoll_server2 os = open_reusable-IsOpening 9999 5 os.socket os.binds os.listens
setup-IsOpening server_thread os = thread_setup-IsOpening os.socket os.binds os.listens
setup-IsOpening server_fork os = fork_setup-IsOpening os.socket os.binds os.listens
setup-IsOpening chat_server os = open_reusable-IsOpening 66666 20 os.socket os.binds os.listens
setup-IsOpening (mtlt argc port) os =
    no_arguments (port % 2 ^ 16) (leb argc 2) (mtlt_socket port os) (opens os)
      (mtlt_socket-IsOpening port os.socket os.binds os.listens)

-- the result of a set-up, and that its last call ends the program where there is none
abbrev Ends : List Call × Option ℕ → Option ℕ → Type 0
Ends r expected = (r.1 ≡ expected) × (r.1 ≡ none → ends r.0 ≡ true)

few_arguments :
    (few : Bool) (r : List Call × Option ℕ) (expected : Option ℕ)
    → Ends r expected
    → Ends (if few then (usage ∷ exits ∷ [], none) else r) (if few then none else expected)
unfolding ends
few_arguments true r expected h = (refl, λ e. refl)
few_arguments false r expected h = h

http_socket-Ends :
    (chdirs : Bool) (s : Option ℕ) (b l : Bool)
    → Ends (http_socket chdirs (os_of s b l)) (if chdirs && b then s else none)
unfolding http_socket htons ends
http_socket-Ends false s b l = (refl, λ e. refl)
http_socket-Ends true none true l = (refl, λ e. refl)
http_socket-Ends true none false l = (refl, λ e. refl)
http_socket-Ends true (some fd) true l = (refl, λ e. some_none e)
http_socket-Ends true (some fd) false l = (refl, λ e. refl)

-- `main` of http_code/epoll ends the program where it has no argument or where `chdir`, `socket` or `bind` fails, and
-- goes on with its socket otherwise, whether `listen` has failed or not.
pub http_setup_lem :
    (argc : ℕ) (chdirs : Bool) (os : Os)
    → ((http_setup argc chdirs os).1
        ≡ (if ltb argc 2 then none else if chdirs && os.binds then os.socket else none))
      × ((http_setup argc chdirs os).1 ≡ none → ends (http_setup argc chdirs os).0 ≡ true)
unfolding http_setup
http_setup_lem argc chdirs os =
    few_arguments (ltb argc 2) (http_socket chdirs os)
      (if chdirs && os.binds then os.socket else none)
      (http_socket-Ends chdirs os.socket os.binds os.listens)
