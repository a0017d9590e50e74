-- ===== src/Clients/Users/Inv.antt =====
-- What holds of the table, the counter and the threads between steps.
use linux_api_and_socket_pro.Common.{
  ℕ, ◌+◌, ◌≤◌, ◌<◌, ◌≡◌, Option, none, some, List, ◌==◌, if◌then◌else◌, length, get_or, All, total,
}
use linux_api_and_socket_pro.Clients.Users.{
  max_user, Main, counting, accepting, stored, loaded, Worker, serving, closed, leaving, holding,
  Server, Reach, here, next,
}

-- a slot in use
abbrev pub used : Option ℕ → ℕ
used none = 0
used (some fd) = 1

-- a worker whose slot is free and whose `user--` is to come
abbrev pub owes : Worker → ℕ
owes leaving = 1
owes (holding _ _) = 1
owes _ = 0

-- `main` has filled a slot and its `++user` is to come
abbrev pub to_count : Main → ℕ
to_count (stored i) = 1
to_count counting = 1
to_count (loaded _ _) = 1
to_count _ = 0

-- `main` is past the test and its `++user` is to come
abbrev pub to_come : Main → ℕ
to_come (accepting i) = 1
to_come (stored i) = 1
to_come counting = 1
to_come (loaded _ _) = 1
to_come _ = 0

-- a worker that has slot `j`
abbrev pub has_slot : ℕ → Worker → ℕ
has_slot j (serving i) = if i == j then 1 else 0
has_slot j (closed i) = if i == j then 1 else 0
has_slot j _ = 0

-- `main` has filled slot `j` and not started its worker
abbrev pub main_has : ℕ → Main → ℕ
main_has j (stored i) = if i == j then 1 else 0
main_has j _ = 0

-- between the load of `user` and the store
abbrev pub loads : Worker → ℕ
loads (holding _ _) = 1
loads _ = 0

abbrev pub main_loads : Main → ℕ
main_loads (loaded _ _) = 1
main_loads _ = 0

-- how many threads are between the load of `user` and the store
abbrev pub loaders : Server → ℕ
loaders s = main_loads s.main + total loads s.workers

-- In no state of a run that another one follows do two threads stand between the load of `user` and the store.
abbrev pub AreApart : {s t : Server} → Reach s t → Type 0
AreApart here = Unit
AreApart (next {t} way step) = AreApart way × (loaders t ≤ 1)

-- What has been loaded is what `user` still is.
abbrev pub IsFresh : (raised lowered : ℕ) → Worker → Type 0
IsFresh raised lowered (holding r l) = (r ≡ raised) × (l ≡ lowered)
IsFresh raised lowered _ = Unit

abbrev pub IsFreshMain : (raised lowered : ℕ) → Main → Type 0
IsFreshMain raised lowered (loaded r l) = (r ≡ raised) × (l ≡ lowered)
IsFreshMain raised lowered _ = Unit

-- A slot that `main` has looked up is free.
abbrev pub IsOpen : List (Option ℕ) → Main → Type 0
IsOpen slots (accepting i) = (get_or slots i none ≡ none) × (i < max_user)
IsOpen slots _ = Unit

pub record IsSound (s : Server) : Type 0 where
  pub size : length s.user_sock ≡ max_user
  pub balance :
      s.raised + to_count s.main ≡ s.lowered + total used s.user_sock + total owes s.workers
  pub owner :
      (j : ℕ) → total (has_slot j) s.workers + main_has j s.main ≤ used (get_or s.user_sock j none)
  pub chosen : IsOpen s.user_sock s.main
  pub fresh : All (IsFresh s.raised s.lowered) s.workers
  pub main_fresh : IsFreshMain s.raised s.lowered s.main
  pub bound : s.raised + to_come s.main ≤ s.lowered + max_user
