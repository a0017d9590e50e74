-- ===== src/Signals.antt =====
-- signal_code/recycle_process_signal.c: a process that forks five children while SIGCHLD is blocked, and then waits for
-- them in its handler.
pub mod Ending
mod Tests
use linux_api_and_socket_pro.Common.{
  ℕ, zero, suc, ◌+◌, ◌-◌, ◌*◌, ◌/◌, ◌%◌, ◌^◌, ◌≤◌, ◌<◌, min, ◌≡◌, refl, sym, ap, ap₂, subst, ◌∙◌,
  ◌≢◌, ◌↔◌, ◌⊎◌, inl, inr, Bool, true, false, not, ◌&&◌, ◌||◌, Option, none, some, List, [], ◌∷◌,
  ◌++◌, map, append-nil, append_assoc, arith, dec_lt, dec_le, ℕ_discrete, ltb, leb, ◌==◌,
  if◌then◌else◌, ==_iff, ==_refl, ne_test, Bool-cases, Option-cases, codes, length, get_or, set,
  take, drop, replicate, All, length-append, length-set, length-replicate, get_or-set_self,
  get_or-set_ne, take-append-drop, length-take, length-drop, All-append, total, total-nil,
  total-cons, total-append, total-replicate, total-set, total-ge,
}

-- The father: how often it has called `fork`, the children that this has made, those that run, those that have ended,
-- and those that it has waited for; and of SIGCHLD whether it is pending, blocked, and caught.
pub record Father : Type 0 where
  pub forks : ℕ
  pub made : ℕ
  pub running : ℕ
  pub zombies : ℕ
  pub waited : ℕ
  pub pending : Bool
  pub blocked : Bool
  pub handled : Bool
  pub in_handler : Bool

-- after `sigprocmask(SIG_BLOCK, …)`
unfoldable pub start : Father
start = record {
  forks = 0;
  made = 0;
  running = 0;
  zombies = 0;
  waited = 0;
  pending = false;
  blocked = true;
  handled = false;
  in_handler = false;
}

-- The moves of the father and of its children, which leave the loop and end. A `fork` that fails counts as one.
pub data Step (p : Father) : Father → Type 0 where
  fork :
      p.forks < 5
      → Step p (record p { forks = p.forks + 1; made = p.made + 1; running = p.running + 1 })
  fork_fails : p.forks < 5 → Step p (record p { forks = p.forks + 1 })
  install : p.forks ≡ 5 → p.handled ≡ false → Step p (record p { handled = true })
  restore : p.handled ≡ true → p.blocked ≡ true → Step p (record p { blocked = false })
  child_ends :
      (rest : ℕ)
      → p.running ≡ suc rest
      → Step p (record p { running = rest; zombies = p.zombies + 1; pending = true })
  catch :
      p.pending ≡ true
      → p.blocked ≡ false
      → p.in_handler ≡ false
      → Step p (record p { pending = false; in_handler = true })
  wait :
      (rest : ℕ)
      → p.in_handler ≡ true
      → p.zombies ≡ suc rest
      → Step p (record p { zombies = rest; waited = p.waited + 1 })
  return : p.in_handler ≡ true → p.zombies ≡ 0 → Step p (record p { in_handler = false })

-- so many moves, one after the other
pub data Run (p : Father) : ℕ → Father → Type 0 where
  here : Run p 0 p
  next : {n : ℕ} {q r : Father} → Run p n q → Step q r → Run p (n + 1) r
