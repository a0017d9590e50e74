-- ===== src/Signals/Ending.antt =====
-- Every run ends, with all children waited for.
use linux_api_and_socket_pro.Common.{
  ℕ, zero, suc, ◌+◌, ◌-◌, ◌*◌, ◌≤◌, ◌≡◌, refl, sym, ◌∙◌, inl, inr, Bool, true, false, not, arith,
  dec_lt, Bool-cases,
}
use linux_api_and_socket_pro.Signals.{
  Father, start, Step, fork, fork_fails, install, restore, child_ends, catch, wait, return, Run,
  here, next,
}

abbrev bit : Bool → ℕ
bit true = 1
bit false = 0

-- an upper bound of the moves that are left
abbrev left : Father → ℕ
left p =
    6 * (5 - p.forks)
    + 5 * p.running
    + 2 * p.zombies
    + 2 * bit p.pending
    + bit p.in_handler
    + bit p.blocked
    + bit (not p.handled)

record IsSound (p : Father) : Type 0 where
  few : p.forks ≤ 5
  made : p.made ≡ p.running + p.zombies + p.waited
  noticed : p.pending ≡ false → p.in_handler ≡ false → p.zombies ≡ 0

step-left : {p q : Father} → Step p q → left q + 1 ≤ left p
step-left (fork h) = omega (arith, h)
step-left (fork_fails h) = omega (arith, h)
step-left {p} (install e h) = rw h (omega arith)
step-left {p} (restore h e) = rw e (omega arith)
step-left {p} (child_ends rest e) = rw e (omega arith)
step-left {p} (catch e b h) = rw (e, h) (omega arith)
step-left {p} (wait rest h e) = rw e (omega arith)
step-left {p} (return h e) = rw h (omega arith)

run-left : {p q : Father} {n : ℕ} → Run p n q → left q + n ≤ left p
run-left here = omega arith
run-left (next run step) = omega (arith, run-left run, step-left step)

start-IsSound : IsSound start
unfolding start
start-IsSound = record { few = omega arith; made = refl; noticed = λ a b. refl }

true_false : {A : Type 0} (b : Bool) → b ≡ true → b ≡ false → A
true_false b t f = absurd (impossible (sym t ∙ f))
  where
    impossible : true ≡ false → ⊥
    impossible e = cc

Step-IsSound : {p q : Father} → IsSound p → Step p q → IsSound q
Step-IsSound h (fork e) = record {
  few = omega (arith, e);
  made = omega (arith, h.made);
  noticed = h.noticed;
}
Step-IsSound h (fork_fails e) = record {
  few = omega (arith, e);
  made = h.made;
  noticed = h.noticed;
}
Step-IsSound h (install e f) = record { few = h.few; made = h.made; noticed = h.noticed }
Step-IsSound h (restore e b) = record { few = h.few; made = h.made; noticed = h.noticed }
Step-IsSound h (child_ends rest e) = record {
  few = h.few;
  made = omega (arith, h.made, e);
  noticed = λ a b. true_false true refl a;
}
Step-IsSound h (catch e b i) = record {
  few = h.few;
  made = h.made;
  noticed = λ a c. true_false true refl c;
}
Step-IsSound {p} h (wait rest i e) = record {
  few = h.few;
  made = omega (arith, h.made, e);
  noticed = λ a c. true_false p.in_handler i c;
}
Step-IsSound h (return i e) = record { few = h.few; made = h.made; noticed = λ a c. e }

run-IsSound : {p : Father} {n : ℕ} → Run start n p → IsSound p
run-IsSound here = start-IsSound
run-IsSound (next run step) = Step-IsSound (run-IsSound run) step

-- no move is possible
abbrev pub IsStuck : Father → Type 0
IsStuck p = (q : Father) → Step p q → ⊥

-- What a father without a move has done.
stuck_lem : (p : Father) → IsSound p → IsStuck p → (p.forks ≡ 5) × (p.waited ≡ p.made)
stuck_lem p h stuck = (forked, omega (arith, h.made, no_child, h.noticed quiet idle))
  where
    forked : p.forks ≡ 5
    forked = elim (dec_lt p.forks 5) [
      | yes more ↦ absurd (stuck _ (fork more))
      | no h5 ↦ omega (arith, h5, h.few)
    ]

    no_child : p.running ≡ 0
    no_child = by_number p.running refl
      where
        by_number : (n : ℕ) → p.running ≡ n → p.running ≡ 0
        by_number zero e = e
        by_number (suc n) e = absurd (stuck _ (child_ends n e))

    caught : p.handled ≡ true
    caught = elim (Bool-cases p.handled) [ inl e ↦ e | inr e ↦ absurd (stuck _ (install forked e)) ]

    free : p.blocked ≡ false
    free = elim (Bool-cases p.blocked) [ inl e ↦ absurd (stuck _ (restore caught e)) | inr e ↦ e ]

    idle : p.in_handler ≡ false
    idle = elim (Bool-cases p.in_handler) [ inl e ↦ absurd (leaves e p.zombies refl) | inr e ↦ e ]
      where
        leaves : p.in_handler ≡ true → (n : ℕ) → p.zombies ≡ n → ⊥
        leaves e zero z = stuck _ (return e z)
        leaves e (suc n) z = stuck _ (wait n e z)

    quiet : p.pending ≡ false
    quiet = elim (Bool-cases p.pending) [ inl e ↦ absurd (stuck _ (catch e free idle)) | inr e ↦ e ]

-- Whatever the order in which the children end, every run of the father and its children has at most 32 moves.
pub run_bound : {n : ℕ} {p : Father} → Run start n p → n ≤ 32
unfolding start
run_bound run = omega (arith, run-left run)

-- Whatever the order in which the children end, a run of the father and its children after which no move is left has at
-- most 32 moves; the father has then called `fork` five times and has waited for every child that this has made.
pub run_ends :
    {n : ℕ} {p : Father}
    → Run start n p
    → IsStuck p
    → (n ≤ 32) × ((p.forks ≡ 5) × (p.waited ≡ p.made))
run_ends {n} {p} run stuck = (run_bound run, stuck_lem p (run-IsSound run) stuck)
