-- ===== src/Http/Libevent/Life.antt =====
-- What the libevent server allocates for a connection, and what it releases.
use linux_api_and_socket_pro.Common.{
  ℕ, ◌≡◌, refl, Bool, true, List, [], ◌∷◌, ◌++◌, arith, if◌then◌else◌, total,
}
use linux_api_and_socket_pro.Http.Bytes.{bit_or}
use linux_api_and_socket_pro.Http.Libevent.{
  Action, allocate, release, new_buffer, free_buffer, log_closed, log_error, cb_listener, cb_event,
}

cb_event-calls :
    (events_what : ℕ) (arg : Bool)
    → cb_event events_what arg
      ≡ log_closed ∷ ((if arg then release ∷ [] else []) ++ (free_buffer ∷ []))
unfolding cb_event bit_or
cb_event-calls events_what arg = ground arith

abbrev pub is_allocate : Action → ℕ
is_allocate allocate = 1
is_allocate _ = 0

abbrev pub is_release : Action → ℕ
is_release release = 1
is_release _ = 0

abbrev pub is_new : Action → ℕ
is_new new_buffer = 1
is_new _ = 0

abbrev pub is_free : Action → ℕ
is_free free_buffer = 1
is_free _ = 0

abbrev pub is_error : Action → ℕ
is_error log_error = 1
is_error _ = 0

-- the calls of a connection from its acceptance to its event
abbrev pub life : ℕ → List Action
life events_what = cb_listener true ++ cb_event events_what true

-- Whatever event ends an accepted connection, the address that was allocated for it is released once, the buffer
-- event that was made for it is freed once, and no error is logged, not even after an error.
pub cb_event_lem :
    (events_what : ℕ)
    → (total is_allocate (life events_what) ≡ 1)
      × (total is_release (life events_what) ≡ 1)
      × (total is_new (life events_what) ≡ 1)
      × (total is_free (life events_what) ≡ 1)
      × (total is_error (life events_what) ≡ 0)
unfolding total cb_listener
cb_event_lem events_what = rw (cb_event-calls events_what true) (refl, refl, refl, refl, refl)
