-- ===== src/Clients/Parent/Drift.antt =====
-- What a signal between the load and the store of `++user` does to the count.
use linux_api_and_socket_pro.Common.{
  ℕ, zero, suc, ◌+◌, ◌-◌, ◌<◌, ◌≡◌, refl, subst, ◌≢◌, true, false, arith,
}
use linux_api_and_socket_pro.Clients.Parent.{
  Main, accepting, loaded, gone, Process, int_max, start, waited, accept, count, fork, unblock,
  child_ends, catch, wait, return, Reach, here, next,
}
use linux_api_and_socket_pro.Clients.Parent.Reaped.{Reach-trans}

-- with SIGCHLD caught and no zombies
abbrev calm : Main → (user running : ℕ) → Process
calm m user running = record {
  user = user;
  main = m;
  in_handler = false;
  running = running;
  zombies = 0;
  pending = false;
  blocked = false;
  handled = true;
}

-- the only child ends and is waited for, wherever `main` stands
child_goes : (m : Main) (user : ℕ) → m ≢ gone → Reach (calm m (user + 1) 1) (calm m user 0)
unfolding waited
child_goes m user alive =
    subst (λ k. Reach (calm m (user + 1) 1) (calm m k 0)) {x = user + 1 - 1} {y = user}
      (omega arith)
      (next
        (next (next (next here (child_ends 0 refl)) (catch alive refl refl refl refl))
          (wait 0 refl refl))
        (return refl refl))

-- a client goes while `main` counts the next one
drifts :
    (user : ℕ) → user + 1 < int_max → Reach (calm accepting user 0) (calm accepting (user + 1) 0)
drifts user room =
    Reach-trans
      (next
        (Reach-trans
          (next
            (next
              (next (next (next here (accept refl refl)) (count user refl refl (omega arith)))
                (fork refl refl))
              (unblock refl refl))
            (accept refl refl))
          (child_goes (loaded (user + 1)) user (λ e. cc)))
        (count (user + 1) refl refl room))
      (Reach-trans (next (next here (fork refl refl)) (unblock refl refl))
        (child_goes accepting (user + 1) (λ e. cc)))

first_goes : Reach start (calm accepting 0 0)
unfolding start
first_goes =
    Reach-trans
      (next
        (next (next (next here (accept refl refl)) (count 0 refl refl (omega arith)))
          (fork refl refl))
        (unblock refl refl))
      (child_goes accepting 0 (λ e. cc))

-- `user` may have any value below the largest int when no client is left: for each such value there is a run of the
-- process to a state in which no child runs or is left to be waited for, and `user` has that value.
pub user_drifts :
    (n : ℕ)
    → n < int_max
    → (p : Process) × Reach start p × ((p.running ≡ 0) × ((p.zombies ≡ 0) × (p.user ≡ n)))
user_drifts n room = (calm accepting n 0, run n room, (refl, (refl, refl)))
  where
    run : (n : ℕ) → n < int_max → Reach start (calm accepting n 0)
    run zero room = first_goes
    run (suc n) room =
        subst (λ k. Reach start (calm accepting k 0)) {x = n + 1} {y = suc n} (omega arith)
          (Reach-trans (run n (omega arith)) (drifts n (omega arith)))
