-- ===== src/Clients/Users/Empty.antt =====
-- The steps of a worker that leaves keep the invariant.
use linux_api_and_socket_pro.Common.{
  ℕ, ◌+◌, ◌≤◌, ◌≡◌, refl, ap, subst, ◌∙◌, ◌≢◌, Option, none, some, arith, ℕ_discrete, ==_refl,
  ne_test, get_or, set, length-set, get_or-set_ne, total, total-set, total-ge,
}
use linux_api_and_socket_pro.Clients.Users.{
  Main, testing, counting, ended, accepting, stored, loaded, serving, closed, leaving, gone,
  holding, Server,
}
use linux_api_and_socket_pro.Clients.Users.Inv.{
  used, owes, has_slot, main_has, loads, main_loads, loaders, IsFresh, IsFreshMain, IsSound,
}
use linux_api_and_socket_pro.Clients.Users.Slots.{
  total-used_freed, get_or-freed, freed-IsOpen, IsFresh-of-none, IsFresh-set, IsFresh-get_or,
}

pub close-IsSound :
    (s : Server) (w i : ℕ)
    → get_or s.workers w gone ≡ serving i
    → IsSound s
    → IsSound (record s { workers = set s.workers w (closed i) })
close-IsSound s w i e h = record {
  size = h.size;
  balance =
      omega
        (arith, h.balance, total-set owes s.workers w (closed i) gone (rw e (λ q. cc)), ap owes e);
  owner = λ j. omega (
    arith,
    h.owner j,
    total-set (has_slot j) s.workers w (closed i) gone (rw e (λ q. cc)),
    ap (has_slot j) e,
  );
  chosen = h.chosen;
  fresh = IsFresh-set s.raised s.lowered s.workers w (closed i) h.fresh tt;
  main_fresh = h.main_fresh;
  bound = h.bound;
}

pub free-IsSound :
    (s : Server) (w i : ℕ)
    → get_or s.workers w gone ≡ closed i
    → IsSound s
    → IsSound (record s { workers = set s.workers w leaving; user_sock = set s.user_sock i none })
free-IsSound s w i e h = record {
  size = length-set s.user_sock i none ∙ h.size;
  balance = omega (
    arith,
    h.balance,
    total-set owes s.workers w leaving gone ne,
    ap owes e,
    total-used_freed s.user_sock i taken,
  );
  owner = λ j. elim (ℕ_discrete i j) [
    | yes same ↦
        subst
          (λ k.
            total (has_slot k) (set s.workers w leaving) + main_has k s.main
            ≤ used (get_or (set s.user_sock i none) k none))
          same own
    | no other ↦ rw (get_or-set_ne s.user_sock i j none none other) (
        omega (
          arith,
          h.owner j,
          total-set (has_slot j) s.workers w leaving gone ne,
          ap (has_slot j) e,
          ne_weight j other,
        ))
  ];
  chosen = freed-IsOpen s.user_sock i s.main h.chosen;
  fresh = IsFresh-set s.raised s.lowered s.workers w leaving h.fresh tt;
  main_fresh = h.main_fresh;
  bound = h.bound;
}
  where
    ne : get_or s.workers w gone ≢ gone
    ne = rw e (λ q. cc)

    weight : has_slot i (closed i) ≡ 1
    weight = rw (==_refl i) refl

    ne_weight : (j : ℕ) → i ≢ j → has_slot j (closed i) ≡ 0
    ne_weight j other = rw (ne_test i j other) refl

    used_most : (slot : Option ℕ) → used slot ≤ 1
    used_most none = omega arith
    used_most (some fd) = omega arith

    taken : used (get_or s.user_sock i none) ≡ 1
    taken = omega (
      arith,
      h.owner i,
      total-ge (has_slot i) s.workers w gone ne,
      ap (has_slot i) e,
      weight,
      used_most (get_or s.user_sock i none),
    )

    own :
        total (has_slot i) (set s.workers w leaving) + main_has i s.main
        ≤ used (get_or (set s.user_sock i none) i none)
    own = rw (get_or-freed s.user_sock i) (
        omega (
          arith,
          h.owner i,
          taken,
          total-set (has_slot i) s.workers w leaving gone ne,
          ap (has_slot i) e,
          weight,
        ))

pub load_leave-IsSound :
    (s : Server) (w : ℕ)
    → get_or s.workers w gone ≡ leaving
    → IsSound s
    → IsSound (record s { workers = set s.workers w (holding s.raised s.lowered) })
load_leave-IsSound s w e h = record {
  size = h.size;
  balance = omega (
    arith,
    h.balance,
    total-set owes s.workers w (holding s.raised s.lowered) gone (rw e (λ q. cc)),
    ap owes e,
  );
  owner = λ j. omega (
    arith,
    h.owner j,
    total-set (has_slot j) s.workers w (holding s.raised s.lowered) gone (rw e (λ q. cc)),
    ap (has_slot j) e,
  );
  chosen = h.chosen;
  fresh =
      IsFresh-set s.raised s.lowered s.workers w (holding s.raised s.lowered) h.fresh (refl, refl);
  main_fresh = h.main_fresh;
  bound = h.bound;
}

no_load : (raised lowered : ℕ) (m : Main) → main_loads m ≡ 0 → IsFreshMain raised lowered m
no_load raised lowered testing e = tt
no_load raised lowered counting e = tt
no_load raised lowered ended e = tt
no_load raised lowered (accepting i) e = tt
no_load raised lowered (stored i) e = tt
no_load raised lowered (loaded r l) e = absurd (omega arith)

-- The store lowers `user` by one if nothing else has changed it since the load.
pub leave-IsSound :
    (s : Server) (w raised lowered : ℕ)
    → get_or s.workers w gone ≡ holding raised lowered
    → loaders s ≤ 1
    → IsSound s
    → IsSound (record s { workers = set s.workers w gone; raised = raised; lowered = lowered + 1 })
leave-IsSound s w raised lowered e alone h = record {
  size = h.size;
  balance = omega (arith, h.balance, total-set owes s.workers w gone gone ne, ap owes e, same);
  owner = λ j.
      omega (arith, h.owner j, total-set (has_slot j) s.workers w gone gone ne, ap (has_slot j) e);
  chosen = h.chosen;
  fresh =
      IsFresh-of-none raised (lowered + 1) (set s.workers w gone)
        (omega (arith, alone, total-set loads s.workers w gone gone ne, ap loads e));
  main_fresh =
      no_load raised (lowered + 1) s.main
        (omega (arith, alone, total-ge loads s.workers w gone ne, ap loads e));
  bound = omega (arith, h.bound, same);
}
  where
    ne : get_or s.workers w gone ≢ gone
    ne = rw e (λ q. cc)

    same : (raised ≡ s.raised) × (lowered ≡ s.lowered)
    same =
        subst (IsFresh s.raised s.lowered) e (IsFresh-get_or s.raised s.lowered s.workers w h.fresh)
