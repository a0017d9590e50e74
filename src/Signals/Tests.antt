-- ===== src/Signals/Tests.antt =====
-- A run of the father, and the theorem at it.
use linux_api_and_socket_pro.Common.{◌≤◌, ◌≡◌, refl, true, false, arith}
use linux_api_and_socket_pro.Signals.{
  Father, start, fork, fork_fails, install, restore, child_ends, catch, wait, return, Run, here,
  next,
}
use linux_api_and_socket_pro.Signals.Ending.{IsStuck, run_ends}

-- only the first fork has succeeded, and its child has ended before the handler was installed
abbrev ended : Father
ended = record {
  forks = 5;
  made = 1;
  running = 0;
  zombies = 0;
  waited = 1;
  pending = false;
  blocked = false;
  handled = true;
  in_handler = false;
}

ended-Run : Run start 11 ended
unfolding start
ended-Run =
    next
      (next
        (next
          (next
            (next
              (next
                (next
                  (next
                    (next (next (next here (fork (omega arith))) (fork_fails (omega arith)))
                      (fork_fails (omega arith)))
                    (fork_fails (omega arith)))
                  (child_ends 0 refl))
                (fork_fails (omega arith)))
              (install refl refl))
            (restore refl refl))
          (catch refl refl refl))
        (wait 0 refl refl))
      (return refl refl)

ended-IsStuck : IsStuck ended
ended-IsStuck q (fork h) = omega (arith, h)
ended-IsStuck q (fork_fails h) = omega (arith, h)
ended-IsStuck q (install e h) = cc
ended-IsStuck q (restore h e) = cc
ended-IsStuck q (child_ends rest e) = omega (arith, e)
ended-IsStuck q (catch e b h) = cc
ended-IsStuck q (wait rest h e) = cc
ended-IsStuck q (return h e) = cc

run_ends_example : (11 ≤ 32) × ((ended.forks ≡ 5) × (ended.waited ≡ ended.made))
run_ends_example = run_ends ended-Run ended-IsStuck
