-- ===== src/Echo/Modes/Streams.antt =====
-- What `et` of mtlt.cpp sends back to a client, over any number of waits.
use linux_api_and_socket_pro.Common.{
  ℕ, ◌≡◌, refl, sym, ap, ap₂, ◌∙◌, Bool, true, false, Option, none, some, List, [], ◌∷◌, ◌++◌,
  append_assoc, ◌==◌, if◌then◌else◌,
}
use linux_api_and_socket_pro.Echo.Main.Edge.{run_from-some}
use linux_api_and_socket_pro.Echo.Buffer.{Answer, bytes, end, failed}
use linux_api_and_socket_pro.Echo.Epoll.{
  Call, ctl_add, set_nonblocking, write, ctl_del, close, exits, Event,
}
use linux_api_and_socket_pro.Echo.Modes.{addfd, et_recv, et, et_waits, mtlt_main}
use linux_api_and_socket_pro.Setup.{Os, mtlt_setup}

-- the bytes written to `fd`, in order
abbrev pub sent_to : ℕ → List Call → List ℕ
sent_to fd [] = []
sent_to fd (write fd' block ∷ calls) =
    if fd' == fd then block ++ sent_to fd calls else sent_to fd calls
sent_to fd (_ ∷ calls) = sent_to fd calls

-- the bytes that reads give before one that gives none
abbrev pub received : List Answer → List ℕ
received [] = []
received (bytes input ∷ answers) = input ++ received answers
received (_ ∷ answers) = []

-- the bytes that are read from `fd` for an event
abbrev pub received_by : (fd listenfd : ℕ) → Event → List ℕ
received_by fd listenfd e =
    if e.fd == listenfd
    then []
    else if e.readable
    then (if e.fd == fd then received e.answers else [])
    else []

-- and in a wait, whatever its events
abbrev pub received_from : (fd listenfd : ℕ) → List Event → List ℕ
received_from fd listenfd [] = []
received_from fd listenfd (e ∷ events) =
    received_by fd listenfd e ++ received_from fd listenfd events

-- and in the waits up to one that fails
abbrev pub received_in : (fd listenfd : ℕ) → List (Option (List Event)) → List ℕ
received_in fd listenfd [] = []
received_in fd listenfd (none ∷ waits) = []
received_in fd listenfd (some events ∷ waits) =
    received_from fd listenfd events ++ received_in fd listenfd waits

if_append :
    (b : Bool) (block xs ys : List ℕ)
    → (if b then block ++ (xs ++ ys) else xs ++ ys) ≡ (if b then block ++ xs else xs) ++ ys
if_append true block xs ys = sym (append_assoc block xs ys)
if_append false block xs ys = refl

sent_to-append :
    (fd : ℕ) (xs ys : List Call) → sent_to fd (xs ++ ys) ≡ sent_to fd xs ++ sent_to fd ys
sent_to-append fd [] ys = refl
sent_to-append fd (write fd' block ∷ xs) ys =
    rw (sent_to-append fd xs ys) (if_append (fd' == fd) block (sent_to fd xs) (sent_to fd ys))
sent_to-append fd (ctl_add fd' enable_et ∷ xs) ys = sent_to-append fd xs ys
sent_to-append fd (set_nonblocking fd' ∷ xs) ys = sent_to-append fd xs ys
sent_to-append fd (ctl_del fd' ∷ xs) ys = sent_to-append fd xs ys
sent_to-append fd (close fd' ∷ xs) ys = sent_to-append fd xs ys
sent_to-append fd (exits ∷ xs) ys = sent_to-append fd xs ys

sent_to-addfd : (fd : ℕ) (cfd : Option ℕ) (enable_et : Bool) → sent_to fd (addfd cfd enable_et) ≡ []
unfolding addfd
sent_to-addfd fd none enable_et = refl
sent_to-addfd fd (some cfd) enable_et = refl

abbrev nothing : List ℕ
nothing = []

no_bytes : (b : Bool) → nothing ≡ (if b then nothing else nothing)
no_bytes true = refl
no_bytes false = refl

sent_to-et_recv :
    (fd from : ℕ) (answers : List Answer)
    → sent_to fd (et_recv from answers) ≡ (if from == fd then received answers else [])
unfolding et_recv
sent_to-et_recv fd from [] = no_bytes (from == fd)
sent_to-et_recv fd from (end ∷ answers) = no_bytes (from == fd)
sent_to-et_recv fd from (failed errno ∷ answers) = closed (errno == 11) ∙ no_bytes (from == fd)
  where
    closed : (b : Bool) → sent_to fd (if b then [] else close from ∷ []) ≡ []
    closed true = refl
    closed false = refl
sent_to-et_recv fd from (bytes input ∷ answers) =
    rw (sent_to-et_recv fd from answers) (joined (from == fd))
  where
    joined :
        (b : Bool)
        → (if b
            then input ++ (if b then received answers else [])
            else if b
            then received answers
            else [])
          ≡ (if b then input ++ received answers else [])
    joined true = refl
    joined false = refl

sent_to-et :
    (fd listenfd : ℕ) (events : List Event)
    → sent_to fd (et listenfd events) ≡ received_from fd listenfd events
unfolding et
sent_to-et fd listenfd [] = refl
sent_to-et fd listenfd (e ∷ events) =
    by_tests (e.fd == listenfd) e.readable (sent_to-et fd listenfd events)
  where
    rest : List Call
    rest = et listenfd events

    by_tests :
        (l r : Bool)
        → sent_to fd rest ≡ received_from fd listenfd events
        → sent_to fd (
            if l
            then addfd e.accepted true ++ rest
            else if r
            then et_recv e.fd e.answers ++ rest
            else rest)
          ≡ (if l then [] else if r then (if e.fd == fd then received e.answers else []) else [])
            ++ received_from fd listenfd events
    by_tests true r same =
        sent_to-append fd (addfd e.accepted true) rest
        ∙ ap₂ ◌++◌ (sent_to-addfd fd e.accepted true) same
    by_tests false true same =
        sent_to-append fd (et_recv e.fd e.answers) rest
        ∙ ap₂ ◌++◌ (sent_to-et_recv fd e.fd e.answers) same
    by_tests false false same = same

sent_to-et_waits :
    (fd listenfd : ℕ) (waits : List (Option (List Event)))
    → sent_to fd (et_waits listenfd waits) ≡ received_in fd listenfd waits
unfolding et_waits
sent_to-et_waits fd listenfd [] = refl
sent_to-et_waits fd listenfd (none ∷ waits) = refl
sent_to-et_waits fd listenfd (some events ∷ waits) =
    sent_to-append fd (et listenfd events) (et_waits listenfd waits)
    ∙ ap₂ ◌++◌ (sent_to-et fd listenfd events) (sent_to-et_waits fd listenfd waits)

-- A run of mtlt.cpp whose set-up and `epoll_create` have succeeded makes, in any number of waits and whatever their
-- events, calls that send to each descriptor just the bytes that were read for the events of this descriptor,
-- unchanged and in the same order.
pub mtlt_main_lem :
    (argc port listenfd : ℕ) (os : Os) (waits : List (Option (List Event)))
    → (mtlt_setup argc port os).1 ≡ some listenfd
    → (calls : List Call) × ((mtlt_main argc port os true waits).1 ≡ some calls)
      × ((fd : ℕ) → sent_to fd calls ≡ received_in fd listenfd waits)
unfolding mtlt_main addfd
mtlt_main_lem argc port listenfd os waits e = (
  addfd (some listenfd) true ++ et_waits listenfd waits,
  ap (λ r. r.1) (run_from-some (mtlt_setup argc port os) listenfd _ e),
  λ fd. sent_to-et_waits fd listenfd waits,
)
