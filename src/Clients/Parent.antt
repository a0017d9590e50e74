-- ===== src/Clients/Parent.antt =====
-- tcp_code/server_fork.c: the parent, which counts its clients, and its handler for SIGCHLD.
pub mod Reaped
pub mod Drift
use linux_api_and_socket_pro.Common.{
  ℕ, zero, suc, ◌+◌, ◌-◌, ◌*◌, ◌/◌, ◌%◌, ◌^◌, ◌≤◌, ◌<◌, min, ◌≡◌, refl, sym, ap, ap₂, subst, ◌∙◌,
  ◌≢◌, ◌↔◌, ◌⊎◌, inl, inr, Bool, true, false, not, ◌&&◌, ◌||◌, Option, none, some, List, [], ◌∷◌,
  ◌++◌, map, append-nil, append_assoc, arith, dec_lt, dec_le, ℕ_discrete, ltb, leb, ◌==◌,
  if◌then◌else◌, ==_iff, ==_refl, ne_test, Bool-cases, Option-cases, codes, length, get_or, set,
  take, drop, replicate, All, length-append, length-set, length-replicate, get_or-set_self,
  get_or-set_ne, take-append-drop, length-take, length-drop, All-append, total, total-nil,
  total-cons, total-append, total-replicate, total-set, total-ge,
}

-- Where `main` stands: at `accept`, between the load and the store of `++user`, at `fork`, behind it in the parent,
-- and at the end of the process.
pub data Main : Type 0 where
  accepting forking parent : Main
  loaded : (user : ℕ) → Main
  gone : Main

-- The globals, and what the kernel keeps for the process: children that run and that have ended and are not waited
-- for, and of SIGCHLD whether it is pending, blocked, and caught by `recycle_child`.
pub record Process : Type 0 where
  pub user : ℕ
  pub main : Main
  pub in_handler : Bool
  pub running : ℕ
  pub zombies : ℕ
  pub pending : Bool
  pub blocked : Bool
  pub handled : Bool

abbrev pub int_max : ℕ
int_max = 0x7fffffff

-- `main` before its loop, with SIGCHLD blocked
unfoldable pub start : Process
start = record {
  user = 0;
  main = accepting;
  in_handler = false;
  running = 0;
  zombies = 0;
  pending = false;
  blocked = true;
  handled = false;
}

-- `waitpid` has waited for a child: `user--`
unfoldable pub waited : Process → Process
waited p = record p { user = p.user - 1; zombies = p.zombies - 1 }

-- the loop of `recycle_child` when no more children end, and its return
unfoldable pub recycle_child : (rounds : ℕ) → Process → Process
unfolding waited
recycle_child zero p = record p { in_handler = false }
recycle_child (suc rounds) p = recycle_child rounds (waited p)

-- The moves of the process and of its children. An int that `++user` would overflow is no case. `main` stands still while the handler runs, during which SIGCHLD
-- stays pending. A child may end at any time.
pub data Step (p : Process) : Process → Type 0 where
  accept : p.main ≡ accepting → p.in_handler ≡ false → Step p (record p { main = loaded p.user })
  accept_fails : p.main ≡ accepting → p.in_handler ≡ false → Step p (record p { main = gone })
  count :
      (user : ℕ)
      → p.main ≡ loaded user
      → p.in_handler ≡ false
      → user < int_max
      → Step p (record p { user = user + 1; main = forking })
  fork :
      p.main ≡ forking
      → p.in_handler ≡ false
      → Step p (record p { running = p.running + 1; main = parent })
  fork_fails : p.main ≡ forking → p.in_handler ≡ false → Step p (record p { main = gone })
  unblock :
      p.main ≡ parent
      → p.in_handler ≡ false
      → Step p (record p { handled = true; blocked = false; main = accepting })
  child_ends :
      (rest : ℕ)
      → p.running ≡ suc rest
      → Step p (record p { running = rest; zombies = p.zombies + 1; pending = true })
  catch :
      p.main ≢ gone
      → p.pending ≡ true
      → p.blocked ≡ false
      → p.handled ≡ true
      → p.in_handler ≡ false
      → Step p (record p { pending = false; in_handler = true })
  wait : (rest : ℕ) → p.in_handler ≡ true → p.zombies ≡ suc rest → Step p (waited p)
  return : p.in_handler ≡ true → p.zombies ≡ 0 → Step p (record p { in_handler = false })

pub data Reach (p : Process) : Process → Type 0 where
  here : Reach p p
  next : {q r : Process} → Reach p q → Step q r → Reach p r
