-- ===== src/Clients/Users/Slots.antt =====
-- The table of slots: the search, and what filling and freeing a slot does to the number in use.
use linux_api_and_socket_pro.Common.{
  ℕ, zero, suc, ◌+◌, ◌<◌, ◌≡◌, refl, sym, ap, ◌∙◌, Option, none, some, List, [], ◌∷◌, arith,
  ℕ_discrete, length, get_or, set, replicate, All, get_or-set_ne, total, total-cons,
}
use linux_api_and_socket_pro.Clients.Users.{
  Main, testing, counting, ended, accepting, stored, loaded, Worker, serving, closed, leaving, gone,
  holding, find_slot,
}
use linux_api_and_socket_pro.Clients.Users.Inv.{used, loads, IsFresh, IsOpen}

-- The search ends at a free slot of the table, unless all are in use.
pub find_slot_lem :
    (slots : List (Option ℕ))
    → total used slots < length slots
    → (get_or slots (find_slot slots) none ≡ none) × (find_slot slots < length slots)
unfolding find_slot
find_slot_lem [] h = absurd (omega arith)
find_slot_lem (none ∷ slots) h = (refl, omega arith)
find_slot_lem (some fd ∷ slots) h =
    let (free, inside) = find_slot_lem slots (omega (arith, h, total-cons used (some fd) slots)) in
    (free, omega (arith, inside))

pub total-used_set :
    (slots : List (Option ℕ)) (i fd : ℕ)
    → get_or slots i none ≡ none
    → i < length slots
    → total used (set slots i (some fd)) ≡ total used slots + 1
total-used_set [] i fd e h = absurd (omega arith)
total-used_set (x ∷ slots) zero fd e h =
    omega (arith, total-cons used x slots, total-cons used (some fd) slots, ap used e)
total-used_set (x ∷ slots) (suc i) fd e h = omega (
  arith,
  total-cons used x slots,
  total-cons used x (set slots i (some fd)),
  total-used_set slots i fd e (omega arith),
)

pub total-used_freed :
    (slots : List (Option ℕ)) (i : ℕ)
    → used (get_or slots i none) ≡ 1
    → total used (set slots i none) + 1 ≡ total used slots
total-used_freed [] i e = absurd (omega arith)
total-used_freed (x ∷ slots) zero e =
    omega (arith, total-cons used x slots, total-cons used none slots, e)
total-used_freed (x ∷ slots) (suc i) e = omega (
  arith,
  total-cons used x slots,
  total-cons used x (set slots i none),
  total-used_freed slots i e,
)

pub get_or-freed : (slots : List (Option ℕ)) (i : ℕ) → get_or (set slots i none) i none ≡ none
get_or-freed [] i = refl
get_or-freed (x ∷ slots) zero = refl
get_or-freed (x ∷ slots) (suc i) = get_or-freed slots i

pub freed-IsOpen :
    (slots : List (Option ℕ)) (i : ℕ) (m : Main) → IsOpen slots m → IsOpen (set slots i none) m
freed-IsOpen slots i testing h = tt
freed-IsOpen slots i counting h = tt
freed-IsOpen slots i ended h = tt
freed-IsOpen slots i (loaded r l) h = tt
freed-IsOpen slots i (stored k) h = tt
freed-IsOpen slots i (accepting k) h = (
  elim (ℕ_discrete i k) [
    | yes e ↦ rw (sym e) (get_or-freed slots i)
    | no ne ↦ get_or-set_ne slots i k none none ne ∙ h.0
  ],
  h.1,
)

-- the load and the store of `user`, over all workers
pub IsFresh-of-none :
    (raised lowered : ℕ) (ws : List Worker) → total loads ws ≡ 0 → All (IsFresh raised lowered) ws
IsFresh-of-none raised lowered [] h = tt
IsFresh-of-none raised lowered (w ∷ ws) h = (
  one w (omega (arith, h, total-cons loads w ws)),
  IsFresh-of-none raised lowered ws (omega (arith, h, total-cons loads w ws)),
)
  where
    one : (w : Worker) → loads w ≡ 0 → IsFresh raised lowered w
    one (serving i) e = tt
    one (closed i) e = tt
    one leaving e = tt
    one gone e = tt
    one (holding r l) e = absurd (omega arith)

pub IsFresh-set :
    (raised lowered : ℕ) (ws : List Worker) (i : ℕ) (w : Worker)
    → All (IsFresh raised lowered) ws
    → IsFresh raised lowered w
    → All (IsFresh raised lowered) (set ws i w)
IsFresh-set raised lowered [] i w h fresh = tt
IsFresh-set raised lowered (v ∷ ws) zero w h fresh = (fresh, h.1)
IsFresh-set raised lowered (v ∷ ws) (suc i) w h fresh =
    (h.0, IsFresh-set raised lowered ws i w h.1 fresh)

pub IsFresh-get_or :
    (raised lowered : ℕ) (ws : List Worker) (i : ℕ)
    → All (IsFresh raised lowered) ws
    → IsFresh raised lowered (get_or ws i gone)
IsFresh-get_or raised lowered [] i h = tt
IsFresh-get_or raised lowered (w ∷ ws) zero h = h.0
IsFresh-get_or raised lowered (w ∷ ws) (suc i) h = IsFresh-get_or raised lowered ws i h.1

pub get_or-start : (n j : ℕ) → get_or {A = Option ℕ} (replicate n none) j none ≡ none
get_or-start zero j = refl
get_or-start (suc n) zero = refl
get_or-start (suc n) (suc j) = get_or-start n j
