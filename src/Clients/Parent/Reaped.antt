-- ===== src/Clients/Parent/Reaped.antt =====
-- The count of the clients, and that every child that ends is waited for.
use linux_api_and_socket_pro.Common.{
  ℕ, zero, suc, ◌+◌, ◌-◌, ◌≤◌, ◌≡◌, refl, sym, ap, subst, ◌∙◌, ◌≢◌, ◌⊎◌, inl, inr, Bool, true,
  false, arith, Bool-cases,
}
use linux_api_and_socket_pro.Clients.Parent.{
  Main, accepting, forking, parent, loaded, gone, Process, start, waited, recycle_child, Step,
  accept, accept_fails, count, fork, fork_fails, unblock, child_ends, catch, wait, return, Reach,
  here, next,
}

-- children that `user` counts and that do not run yet
abbrev to_fork : Main → ℕ
to_fork forking = 1
to_fork _ = 0

-- the number that `++user` has read covers the children
abbrev IsCovered : Main → ℕ → Type 0
IsCovered (loaded user) children = children ≤ user
IsCovered _ children = Unit

record IsSound (p : Process) : Type 0 where
  covers : p.running + p.zombies + to_fork p.main ≤ p.user
  covered : IsCovered p.main (p.running + p.zombies)
  noticed : p.pending ≡ false → p.in_handler ≡ false → p.zombies ≡ 0
  caught : p.blocked ≡ false → p.handled ≡ true

start-IsSound : IsSound start
unfolding start
start-IsSound = record {
  covers = omega arith;
  covered = tt;
  noticed = λ e h. refl;
  caught = λ e. absurd (unequal e);
}
  where
    unequal : true ≡ false → ⊥
    unequal e = cc

less-IsCovered : (m : Main) (a b : ℕ) → b ≤ a → IsCovered m a → IsCovered m b
less-IsCovered (loaded user) a b le h = omega arith
less-IsCovered accepting a b le h = tt
less-IsCovered forking a b le h = tt
less-IsCovered parent a b le h = tt
less-IsCovered gone a b le h = tt

true_false : {A : Type 0} (b : Bool) → b ≡ true → b ≡ false → A
true_false b t f = absurd (impossible (sym t ∙ f))
  where
    impossible : true ≡ false → ⊥
    impossible e = cc

step-IsSound : {p q : Process} → IsSound p → Step p q → IsSound q
unfolding waited
step-IsSound {p} h (accept e i) = record {
  covers = omega (arith, h.covers);
  covered = omega (arith, h.covers);
  noticed = h.noticed;
  caught = h.caught;
}
step-IsSound {p} h (accept_fails e i) = record {
  covers = omega (arith, h.covers);
  covered = tt;
  noticed = h.noticed;
  caught = h.caught;
}
step-IsSound {p} h (count user e i _) = record {
  covers = omega (arith, subst (λ m. IsCovered m (p.running + p.zombies)) e h.covered);
  covered = tt;
  noticed = h.noticed;
  caught = h.caught;
}
step-IsSound {p} h (fork e i) = record {
  covers = omega (arith, h.covers, ap to_fork e);
  covered = tt;
  noticed = h.noticed;
  caught = h.caught;
}
step-IsSound {p} h (fork_fails e i) = record {
  covers = omega (arith, h.covers);
  covered = tt;
  noticed = h.noticed;
  caught = h.caught;
}
step-IsSound {p} h (unblock e i) = record {
  covers = omega (arith, h.covers);
  covered = tt;
  noticed = h.noticed;
  caught = λ b. refl;
}
step-IsSound {p} h (child_ends rest e) = record {
  covers = omega (arith, h.covers, e);
  covered =
      less-IsCovered p.main (p.running + p.zombies) (rest + (p.zombies + 1)) (omega (arith, e))
        h.covered;
  noticed = λ b. true_false true refl b;
  caught = h.caught;
}
step-IsSound {p} h (catch m e b d i) = record {
  covers = h.covers;
  covered = h.covered;
  noticed = λ a c. true_false true refl c;
  caught = h.caught;
}
step-IsSound {p} h (wait rest i e) = record {
  covers = omega (arith, h.covers, e);
  covered =
      less-IsCovered p.main (p.running + p.zombies) (p.running + (p.zombies - 1)) (omega arith)
        h.covered;
  noticed = λ a c. true_false p.in_handler i c;
  caught = h.caught;
}
step-IsSound {p} h (return i e) = record {
  covers = h.covers;
  covered = h.covered;
  noticed = λ a c. e;
  caught = h.caught;
}

Reach-IsSound : {p : Process} → Reach start p → IsSound p
Reach-IsSound here = start-IsSound
Reach-IsSound (next run step) = step-IsSound (Reach-IsSound run) step

-- In every state that the parent reaches, `user` is at least the number of the children that have not been waited
-- for; unless all that have ended have been waited for, a handler runs or SIGCHLD is pending; and SIGCHLD is blocked
-- or caught.
pub user_covers :
    {p : Process}
    → Reach start p
    → (p.running + p.zombies ≤ p.user)
      × (((p.pending ≡ true) ⊎ ((p.in_handler ≡ true) ⊎ (p.zombies ≡ 0)))
          × ((p.blocked ≡ true) ⊎ (p.handled ≡ true)))
user_covers {p} run =
    let h = Reach-IsSound run in
    (
      omega (arith, h.covers),
      (
        elim (Bool-cases p.pending) [
          | inl e ↦ inl e
          | inr quiet ↦ elim (Bool-cases p.in_handler) [
            | inl e ↦ inr (inl e)
            | inr idle ↦ inr (inr (h.noticed quiet idle))
          ]
        ],
        elim (Bool-cases p.blocked) [ inl e ↦ inl e | inr free ↦ inr (h.caught free) ],
      ),
    )

pub Reach-trans : {p q r : Process} → Reach p q → Reach q r → Reach p r
Reach-trans first here = first
Reach-trans first (next run step) = next (Reach-trans first run) step

-- the rounds of the handler are steps
recycle_child_lem :
    (rounds : ℕ) (p : Process)
    → p.in_handler ≡ true
    → p.zombies ≡ rounds
    → rounds ≤ p.user
    → Reach p (recycle_child rounds p)
      × (((recycle_child rounds p).user + rounds ≡ p.user) × ((recycle_child rounds p).zombies ≡ 0))
unfolding recycle_child waited
recycle_child_lem zero p i e le = (next here (return i e), (omega arith, e))
recycle_child_lem (suc rounds) p i e le =
    let (run, (users, none_left)) =
      recycle_child_lem rounds (waited p) i (omega (arith, e)) (omega arith) in
    (Reach-trans (next here (wait rounds i e)) run, (omega (arith, users, le), none_left))

recycle_child-rest :
    (rounds : ℕ) (p : Process)
    → ((recycle_child rounds p).running ≡ p.running)
      × (((recycle_child rounds p).main ≡ p.main) × ((recycle_child rounds p).in_handler ≡ false))
unfolding recycle_child waited
recycle_child-rest zero p = (refl, (refl, refl))
recycle_child-rest (suc rounds) p = recycle_child-rest rounds (waited p)

-- the process when the handler starts
abbrev pub caught_at : Process → Process
caught_at p = record p { pending = false; in_handler = true }

-- From every state that the parent reaches, while it has not ended and has SIGCHLD pending and not blocked, the
-- handler can run to its return: it waits for every child that has ended, takes as many off `user`, and leaves
-- `main` and the children that run as they were.
pub recycle_child_reaps :
    {p : Process}
    → Reach start p
    → p.main ≢ gone
    → p.pending ≡ true
    → p.blocked ≡ false
    → p.in_handler ≡ false
    → let q = recycle_child p.zombies (caught_at p) in
      Reach p q
      × ((q.user + p.zombies ≡ p.user)
          × ((q.zombies ≡ 0)
              × ((q.running ≡ p.running) × ((q.main ≡ p.main) × (q.in_handler ≡ false)))))
recycle_child_reaps {p} run alive pending free idle =
    let h = Reach-IsSound run in
    let (steps, (users, none_left)) =
      recycle_child_lem p.zombies (caught_at p) refl refl (omega (arith, h.covers)) in
    (
      Reach-trans (next here (catch alive pending free (h.caught free) idle)) steps,
      (users, (none_left, recycle_child-rest p.zombies (caught_at p))),
    )
