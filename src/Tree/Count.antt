-- ===== src/Tree/Count.antt =====
-- `count_file` of dir_code/file_count.c, on what `readdir` gives.
pub mod Total
use linux_api_and_socket_pro.Common.{
  ℕ, zero, suc, ◌+◌, ◌-◌, ◌*◌, ◌/◌, ◌%◌, ◌^◌, ◌≤◌, ◌<◌, min, ◌≡◌, refl, sym, ap, ap₂, subst, ◌∙◌,
  ◌≢◌, ◌↔◌, ◌⊎◌, inl, inr, Bool, true, false, not, ◌&&◌, ◌||◌, Option, none, some, List, [], ◌∷◌,
  ◌++◌, map, append-nil, append_assoc, arith, dec_lt, dec_le, ℕ_discrete, ltb, leb, ◌==◌,
  if◌then◌else◌, ==_iff, ==_refl, ne_test, Bool-cases, Option-cases, codes, length, get_or, set,
  take, drop, replicate, All, length-append, length-set, length-replicate, get_or-set_self,
  get_or-set_ne, take-append-drop, length-take, length-drop, All-append, total, total-nil,
  total-cons, total-append, total-replicate, total-set, total-ge,
}
use linux_api_and_socket_pro.Http.Bytes.{
  cr, lf, blank, cstr, str_eq, strrchr, tolower, isspace, isxdigit, bit_or, decimal_from, decimal,
  str_eq_refl, strrchr-append, strrchr_missing, cstr-nul,
}

-- The entries of a directory, in the order of `readdir`, by their `d_type`: regular files, directories, and
-- anything else. `opens` says whether `opendir` succeeds for a directory, and `inside` what it holds then.
pub data Entries : Type 0 where
  none_left : Entries
  dt_reg : (d_name : List ℕ) (rest : Entries) → Entries
  dt_dir : (d_name : List ℕ) (opens : Bool) (inside rest : Entries) → Entries
  dt_other : (d_name : List ℕ) (rest : Entries) → Entries

-- The global `count`, and the lines printed for files: the number and the name.
pub record Progress : Type 0 where
  pub count : ℕ
  pub lines : List (ℕ × List ℕ)

unfoldable pub is_dots : List ℕ → Bool
unfolding str_eq
is_dots d_name = str_eq d_name (codes ".") || str_eq d_name (codes "..")

unfoldable pub count_one : List ℕ → Progress → Progress
count_one d_name p = record { count = p.count + 1; lines = p.lines ++ ((p.count + 1, d_name) ∷ []) }

-- The loop over the entries of the directory `path`; the result of the recursive call is not looked at. `none` is a
-- path of a directory that does not fit `newpath`, with its NUL.
unfoldable pub count_entries : (path : List ℕ) → Entries → Progress → Option Progress
unfolding is_dots count_one
count_entries path none_left p = some p
count_entries path (dt_reg d_name rest) p = count_entries path rest (count_one d_name p)
count_entries path (dt_dir d_name opens inside rest) p =
    let newpath = path ++ (b'/' ∷ d_name) in
    let below = count_entries newpath inside p in
    let skipped = count_entries path rest p in
    if is_dots d_name
    then skipped
    else if ltb (length newpath) 256
    then (elim (if opens then below else some p) [
      | none ↦ none
      | some q ↦ count_entries path rest q
    ])
    else none
count_entries path (dt_other d_name rest) p = count_entries path rest p

-- `count_file(path)`: whether it returns 0, and the globals after it.
unfoldable pub count_file :
    (path : List ℕ) (opens : Bool) (inside : Entries) → Progress → Option (Bool × Progress)
unfolding count_entries
count_file path false inside p = some (false, p)
count_file path true inside p = elim (count_entries path inside p) [
  | none ↦ none
  | some q ↦ some (true, q)
]
