-- ===== src/Echo/Epoll/Level.antt =====
-- What `lt_work` does with each event.
use linux_api_and_socket_pro.Common.{
  ℕ, ◌<◌, ◌≡◌, refl, inl, inr, Bool, true, false, some, List, [], ◌∷◌, ◌++◌, map, arith, ◌==◌,
  if◌then◌else◌, Bool-cases, length, All,
}
use linux_api_and_socket_pro.Echo.Buffer.{Answer, bytes, end, failed}
use linux_api_and_socket_pro.Echo.Buffer.Upper.{upper_to_nul, EndsInNul, echo_lem}
use linux_api_and_socket_pro.Echo.Epoll.{
  buff_size, new_buff, Call, write, ctl_del, close, exits, Event, epoll_addfd, lt_read, lt_turn,
  exited, lt_loop, lt_work,
}

-- a read that leaves the last byte of the buffer alone, as `read(fd,rev_buff,BUFF_SIZE-1)` does
abbrev pub IsShort : Answer → Type 0
IsShort (bytes input) = length input < buff_size
IsShort _ = Unit

-- a buffer between two events
abbrev pub IsReady : List ℕ → Type 0
IsReady buff = EndsInNul buff × (length buff ≡ buff_size)

pub new_buff-IsReady : IsReady new_buff
unfolding EndsInNul
new_buff-IsReady = (refl, refl)

-- what a read leads to, whatever is in the buffer
abbrev pub lt_answer : ℕ → List Answer → List Call
lt_answer fd (bytes input ∷ answers) = write fd (upper_to_nul input) ∷ []
lt_answer fd (end ∷ answers) = ctl_del fd ∷ close fd ∷ []
lt_answer fd _ = exits ∷ []

-- what an event leads to, whatever came before it
abbrev pub lt_calls : ℕ → Event → List Call
lt_calls listenfd e =
    if e.fd == listenfd
    then epoll_addfd e.accepted false
    else if e.readable
    then lt_answer e.fd e.answers
    else []

-- the calls for one event after the other, up to the end of the program
abbrev pub until_exit : List (List Call) → List Call
until_exit [] = []
until_exit (calls ∷ more) = if exited calls then calls else calls ++ until_exit more

lt_read_lem :
    (fd : ℕ) (buff : List ℕ) (answers : List Answer)
    → IsReady buff
    → All IsShort answers
    → (b : List ℕ) × (lt_read fd buff answers ≡ some (lt_answer fd answers, b)) × IsReady b
unfolding lt_read
lt_read_lem fd buff [] ready short = (buff, refl, ready)
lt_read_lem fd buff (end ∷ answers) ready short = (buff, refl, ready)
lt_read_lem fd buff (failed errno ∷ answers) ready short = (buff, refl, ready)
lt_read_lem fd buff (bytes input ∷ answers) (ends, len) short =
    let (b, e, ends', len') = echo_lem buff input ends (omega (arith, short.0, len)) in
    (b, rw (e, lt_read) refl, (ends', omega (arith, len, len')))

lt_turn_lem :
    (listenfd : ℕ) (buff : List ℕ) (e : Event)
    → IsReady buff
    → All IsShort e.answers
    → (b : List ℕ) × (lt_turn listenfd buff e ≡ some (lt_calls listenfd e, b)) × IsReady b
unfolding lt_turn
lt_turn_lem listenfd buff e ready short = elim (Bool-cases (e.fd == listenfd)) [
  | inl new ↦ (buff, rw (new, lt_turn) refl, ready)
  | inr old ↦ elim (Bool-cases e.readable) [
    | inr none_there ↦ (buff, rw (old, none_there, lt_turn) refl, ready)
    | inl there ↦
        let (b, same, ready') = lt_read_lem e.fd buff e.answers ready short in
        (b, rw (old, there, lt_turn) same, ready')
  ]
]

lt_loop_lem :
    (listenfd : ℕ) (buff : List ℕ) (events : List Event)
    → IsReady buff
    → All (λ e. All IsShort e.answers) events
    → lt_loop listenfd buff events ≡ some (until_exit (map (lt_calls listenfd) events))
unfolding lt_loop
lt_loop_lem listenfd buff [] ready short = refl
lt_loop_lem listenfd buff (e ∷ events) ready short =
    let (b, same, ready') = lt_turn_lem listenfd buff e ready short.0 in
    rw (same, lt_loop_lem listenfd b events ready' short.1, lt_loop)
      (branches (exited (lt_calls listenfd e)))
  where
    branches :
        (x : Bool)
        → (if x
            then some (lt_calls listenfd e)
            else some (lt_calls listenfd e ++ until_exit (map (lt_calls listenfd) events)))
          ≡ some (
              if x
              then lt_calls listenfd e
              else lt_calls listenfd e ++ until_exit (map (lt_calls listenfd) events))
    branches true = refl
    branches false = refl

-- In level mode, with reads of at most five bytes, the loop never runs past the buffer, and every event leads to
-- its own calls, in order and up to the end of the program: bytes are sent back in upper case up to the first NUL,
-- and nothing that an earlier event left in the shared buffer is sent.
pub lt_work_lem :
    (listenfd : ℕ) (events : List Event)
    → All (λ e. All IsShort e.answers) events
    → lt_work listenfd events ≡ some (until_exit (map (lt_calls listenfd) events))
unfolding lt_work
lt_work_lem listenfd events short = lt_loop_lem listenfd new_buff events new_buff-IsReady short
