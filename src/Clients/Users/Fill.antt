-- ===== src/Clients/Users/Fill.antt =====
-- The steps of `main` keep the invariant.
use linux_api_and_socket_pro.Common.{
  ℕ, ◌+◌, ◌≤◌, ◌<◌, ◌≡◌, refl, ap, subst, ◌∙◌, ◌≢◌, none, some, [], ◌∷◌, ◌++◌, arith, ℕ_discrete,
  ==_refl, ne_test, length, get_or, set, length-set, get_or-set_self, get_or-set_ne, All-append,
  total, total-nil, total-cons, total-append, total-replicate,
}
use linux_api_and_socket_pro.Clients.Users.{
  max_user, testing, counting, ended, accepting, stored, loaded, serving, Server, start, find_slot,
}
use linux_api_and_socket_pro.Clients.Users.Inv.{
  used, owes, to_count, to_come, has_slot, main_has, main_loads, loaders, IsFresh, IsFreshMain,
  IsOpen, IsSound,
}
use linux_api_and_socket_pro.Clients.Users.Slots.{
  find_slot_lem, total-used_set, IsFresh-of-none, get_or-start,
}

pub start-IsSound : IsSound start
unfolding start
start-IsSound = record {
  size = refl;
  balance = omega (arith, total-replicate used max_user none, total-nil owes);
  owner = λ j. rw (get_or-start max_user j) (omega (arith, total-nil (has_slot j)));
  chosen = tt;
  fresh = tt;
  main_fresh = tt;
  bound = omega arith;
}

pub choose-IsSound :
    (s : Server)
    → s.main ≡ testing
    → s.raised ≢ s.lowered + max_user
    → IsSound s
    → IsSound (record s { main = accepting (find_slot s.user_sock) })
choose-IsSound s at_m room h = record {
  size = h.size;
  balance = omega (arith, h.balance, ap to_count at_m);
  owner = λ j. omega (arith, h.owner j, ap (main_has j) at_m);
  chosen = (found.0, omega (arith, found.1, h.size));
  fresh = h.fresh;
  main_fresh = tt;
  bound = omega (arith, h.bound, ap to_come at_m, room);
}
  where
    found :
        (get_or s.user_sock (find_slot s.user_sock) none ≡ none)
        × (find_slot s.user_sock < length s.user_sock)
    found =
        find_slot_lem s.user_sock
          (omega (arith, h.balance, h.bound, h.size, ap to_count at_m, ap to_come at_m, room))

pub accept-IsSound :
    (s : Server) (i fd : ℕ)
    → s.main ≡ accepting i
    → IsSound s
    → IsSound (record s { main = stored i; user_sock = set s.user_sock i (some fd) })
accept-IsSound s i fd at_m h = record {
  size = length-set s.user_sock i (some fd) ∙ h.size;
  balance = omega (
    arith,
    h.balance,
    ap to_count at_m,
    total-used_set s.user_sock i fd free (omega (arith, inside, h.size)),
  );
  owner = λ j. elim (ℕ_discrete i j) [
    | yes e ↦
        subst
          (λ k.
            total (has_slot k) s.workers + main_has k (stored i)
            ≤ used (get_or (set s.user_sock i (some fd)) k none))
          e own
    | no ne ↦
        rw (get_or-set_ne s.user_sock i j (some fd) none ne, ne_test i j ne)
          (omega (arith, h.owner j, ap (main_has j) at_m))
  ];
  chosen = tt;
  fresh = h.fresh;
  main_fresh = tt;
  bound = omega (arith, h.bound, ap to_come at_m);
}
  where
    room : IsOpen s.user_sock (accepting i)
    room = subst (IsOpen s.user_sock) at_m h.chosen

    free : get_or s.user_sock i none ≡ none
    free = room.0

    inside : i < max_user
    inside = room.1

    own :
        total (has_slot i) s.workers + main_has i (stored i)
        ≤ used (get_or (set s.user_sock i (some fd)) i none)
    own =
        rw (get_or-set_self s.user_sock i (some fd) none (omega (arith, inside, h.size)), ==_refl i)
          (omega (arith, h.owner i, ap (main_has i) at_m, ap used free))

pub create-IsSound :
    (s : Server) (i : ℕ)
    → s.main ≡ stored i
    → IsSound s
    → IsSound (record s { main = counting; workers = s.workers ++ (serving i ∷ []) })
create-IsSound s i at_m h = record {
  size = h.size;
  balance = omega (
    arith,
    h.balance,
    ap to_count at_m,
    total-append owes s.workers (serving i ∷ []),
    total-cons owes (serving i) [],
    total-nil owes,
  );
  owner = λ j. omega (
    arith,
    h.owner j,
    ap (main_has j) at_m,
    total-append (has_slot j) s.workers (serving i ∷ []),
    total-cons (has_slot j) (serving i) [],
    total-nil (has_slot j),
  );
  chosen = tt;
  fresh = All-append (IsFresh s.raised s.lowered) s.workers (serving i ∷ []) h.fresh (tt, tt);
  main_fresh = tt;
  bound = omega (arith, h.bound, ap to_come at_m);
}

pub create_fails-IsSound :
    (s : Server) (i : ℕ) → s.main ≡ stored i → IsSound s → IsSound (record s { main = counting })
create_fails-IsSound s i at_m h = record {
  size = h.size;
  balance = omega (arith, h.balance, ap to_count at_m);
  owner = λ j. omega (arith, h.owner j);
  chosen = tt;
  fresh = h.fresh;
  main_fresh = tt;
  bound = omega (arith, h.bound, ap to_come at_m);
}

pub load_user-IsSound :
    (s : Server)
    → s.main ≡ counting
    → IsSound s
    → IsSound (record s { main = loaded s.raised s.lowered })
load_user-IsSound s at_m h = record {
  size = h.size;
  balance = omega (arith, h.balance, ap to_count at_m);
  owner = λ j. omega (arith, h.owner j, ap (main_has j) at_m);
  chosen = tt;
  fresh = h.fresh;
  main_fresh = (refl, refl);
  bound = omega (arith, h.bound, ap to_come at_m);
}

-- The store raises `user` by one if nothing else has changed it since the load.
pub count-IsSound :
    (s : Server) (raised lowered : ℕ)
    → s.main ≡ loaded raised lowered
    → loaders s ≤ 1
    → IsSound s
    → IsSound (record s { main = testing; raised = raised + 1; lowered = lowered })
count-IsSound s raised lowered at_m alone h = record {
  size = h.size;
  balance = omega (arith, h.balance, ap to_count at_m, same);
  owner = λ j. omega (arith, h.owner j);
  chosen = tt;
  fresh = IsFresh-of-none (raised + 1) lowered s.workers (omega (arith, alone, ap main_loads at_m));
  main_fresh = tt;
  bound = omega (arith, h.bound, ap to_come at_m, same);
}
  where
    same : (raised ≡ s.raised) × (lowered ≡ s.lowered)
    same = subst (IsFreshMain s.raised s.lowered) at_m h.main_fresh

pub end-IsSound :
    (s : Server) (i : ℕ) → s.main ≡ accepting i → IsSound s → IsSound (record s { main = ended })
end-IsSound s i at_m h = record {
  size = h.size;
  balance = omega (arith, h.balance, ap to_count at_m);
  owner = λ j. omega (arith, h.owner j, ap (main_has j) at_m);
  chosen = tt;
  fresh = h.fresh;
  main_fresh = tt;
  bound = omega (arith, h.bound);
}
