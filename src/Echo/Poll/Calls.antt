-- ===== src/Echo/Poll/Calls.antt =====
-- What a round is to do with each slot, without the buffer.
use linux_api_and_socket_pro.Common.{
  ℕ, zero, suc, ◌+◌, ◌≤◌, ◌<◌, ◌≡◌, refl, Bool, true, false, ◌&&◌, Option, none, some, List, [],
  ◌∷◌, ◌++◌, arith, ltb, leb, ◌==◌, if◌then◌else◌, length, get_or,
}
use linux_api_and_socket_pro.Echo.Buffer.{Answer, bytes, end, failed}
use linux_api_and_socket_pro.Echo.Buffer.Upper.{upper_to_nul}
use linux_api_and_socket_pro.Echo.Poll.{buff_size, Call, write, close}

-- an answer that neither fails nor fills the buffer
abbrev pub IsShort : Answer → Type 0
IsShort (bytes input) = length input < buff_size
IsShort end = Unit
IsShort (failed errno) = ⊥

-- what a slot leads to, whatever is in the buffer and in the other slots
abbrev pub slot_calls : Option ℕ → Bool → Answer → List Call
slot_calls none readable answer = []
slot_calls (some fd) false answer = []
slot_calls (some fd) true (bytes input) = write fd (upper_to_nul input) ∷ []
slot_calls (some fd) true end = close fd ∷ []
slot_calls (some fd) true (failed errno) = []

-- the calls for so many slots from `i` on
unfoldable pub calls_from : (ℕ → Bool) → (ℕ → Answer) → (rounds i : ℕ) → List (Option ℕ) → List Call
calls_from readable answers zero i fds = []
calls_from readable answers (suc rounds) i fds =
    slot_calls (get_or fds i none) (readable i) (answers i)
    ++ calls_from readable answers rounds (i + 1) fds

pub calls_from-same :
    (readable : ℕ → Bool) (answers : ℕ → Answer) (rounds i : ℕ) (fds after : List (Option ℕ))
    → ((j : ℕ) → i ≤ j → get_or after j none ≡ get_or fds j none)
    → calls_from readable answers rounds i after ≡ calls_from readable answers rounds i fds
unfolding calls_from
calls_from-same readable answers zero i fds after h = refl
calls_from-same readable answers (suc rounds) i fds after h =
    rw
      (
        h i (omega arith),
        calls_from-same readable answers rounds (i + 1) fds after (λ j low. h j (omega arith)),
      )
      refl

-- what a slot holds after its turn: it is free if its client has closed its side
abbrev pub slot_after : Option ℕ → Bool → Answer → Option ℕ
slot_after (some fd) true end = none
slot_after slot readable answer = slot

-- slot `j` is among so many slots from `i` on
unfoldable pub covers : (rounds i j : ℕ) → Bool
covers zero i j = false
covers (suc rounds) i j = let later = covers rounds (i + 1) j in if j == i then true else later

pub covers_lem : (rounds i j : ℕ) → covers rounds i j ≡ (leb i j && ltb j (i + rounds))
unfolding covers
covers_lem zero i j = ground arith
covers_lem (suc rounds) i j = ground (arith, covers_lem rounds (i + 1) j)

pub covers-past : (rounds i j : ℕ) → j < i → covers rounds i j ≡ false
covers-past rounds i j h = rw (covers_lem rounds i j) (ground arith)
