-- ===== src/Tree/Count/Total.antt =====
-- Every regular file is counted once, if the paths fit their buffers.
use linux_api_and_socket_pro.Common.{
  ℕ, ◌+◌, ◌≡◌, refl, sym, ap, ap₂, ◌∙◌, Bool, true, false, not, ◌&&◌, ◌||◌, Option, none, some,
  List, [], ◌∷◌, ◌++◌, append-nil, append_assoc, arith, ltb, if◌then◌else◌, length, length-append,
}
use linux_api_and_socket_pro.Tree.Count.{
  Entries, none_left, dt_reg, dt_dir, dt_other, Progress, is_dots, count_one, count_entries,
  count_file,
}

-- the names of the regular files below, depth first; `.` and `..` and what cannot be opened have none
unfoldable pub regular_files : Entries → List (List ℕ)
regular_files none_left = []
regular_files (dt_reg d_name rest) = d_name ∷ regular_files rest
regular_files (dt_dir d_name opens inside rest) =
    (if is_dots d_name || not opens then [] else regular_files inside) ++ regular_files rest
regular_files (dt_other d_name rest) = regular_files rest

-- names with numbers from `n + 1` on
unfoldable pub numbered : ℕ → List (List ℕ) → List (ℕ × List ℕ)
numbered n [] = []
numbered n (x ∷ xs) = (n + 1, x) ∷ numbered (n + 1) xs

-- the globals after these files
abbrev pub counted : List (List ℕ) → Progress → Progress
counted names p = record {
  count = p.count + length names;
  lines = p.lines ++ numbered p.count names;
}

counted-nil : (p : Progress) → p ≡ counted [] p
unfolding numbered
counted-nil p =
    ap₂ (λ c l. record { count = c; lines = l }) (omega arith) (sym (append-nil p.lines))

numbered-append :
    (n : ℕ) (xs ys : List (List ℕ))
    → numbered n (xs ++ ys) ≡ numbered n xs ++ numbered (n + length xs) ys
unfolding numbered
numbered-append n [] ys = ap (λ m. numbered m ys) (omega arith)
numbered-append n (x ∷ xs) ys =
    ap (λ l. (n + 1, x) ∷ l)
      (numbered-append (n + 1) xs ys ∙ ap (λ m. numbered (n + 1) xs ++ numbered m ys) (omega arith))

counted-append :
    (xs ys : List (List ℕ)) (p : Progress) → counted ys (counted xs p) ≡ counted (xs ++ ys) p
counted-append xs ys p =
    ap₂ (λ c l. record { count = c; lines = l }) (omega (arith, length-append xs ys))
      (append_assoc p.lines (numbered p.count xs) _
        ∙ ap (λ l. p.lines ++ l) (sym (numbered-append p.count xs ys)))

-- The path of every directory that is tried fits `newpath`.
unfoldable pub fits : (path : List ℕ) → Entries → Bool
fits path none_left = true
fits path (dt_reg d_name rest) = fits path rest
fits path (dt_dir d_name opens inside rest) =
    let newpath = path ++ (b'/' ∷ d_name) in
    (is_dots d_name || (ltb (length newpath) 256 && (not opens || fits newpath inside)))
    && fits path rest
fits path (dt_other d_name rest) = fits path rest

-- the globals after these files, if all paths fit
abbrev counted_if : Bool → List (List ℕ) → Progress → Option Progress
counted_if fit names p = if fit then some (counted names p) else none

counted_if-append :
    (fit : Bool) (xs ys : List (List ℕ)) (p : Progress)
    → counted_if fit ys (counted xs p) ≡ counted_if fit (xs ++ ys) p
counted_if-append true xs ys p = ap some (counted-append xs ys p)
counted_if-append false xs ys p = refl

-- One directory, when the loop behind it and the count inside it are known.
count_dir :
    (dots short opens fit_in fit_rest : Bool) (inside rest : List (List ℕ)) (p : Progress)
    (loop : Progress → Option Progress)
    → ((q : Progress) → loop q ≡ counted_if fit_rest rest q)
    → (if dots
        then loop p
        else if short
        then (elim (if opens then counted_if fit_in inside p else some p) [
          | none ↦ none
          | some q ↦ loop q
        ])
        else none)
      ≡ counted_if
          ((dots || (short && (not opens || fit_in))) && fit_rest)
          ((if dots || not opens then [] else inside) ++ rest)
          p
count_dir true short opens fit_in fit_rest inside rest p loop law = law p
count_dir false false opens fit_in fit_rest inside rest p loop law = refl
count_dir false true false fit_in fit_rest inside rest p loop law = law p
count_dir false true true false fit_rest inside rest p loop law = refl
count_dir false true true true fit_rest inside rest p loop law =
    law (counted inside p) ∙ counted_if-append fit_rest inside rest p

count_entries_lem :
    (path : List ℕ) (es : Entries) (p : Progress)
    → count_entries path es p ≡ counted_if (fits path es) (regular_files es) p
unfolding count_entries regular_files fits
count_entries_lem path none_left p = ap some (counted-nil p)
count_entries_lem path (dt_reg d_name rest) p =
    count_entries_lem path rest (count_one d_name p)
    ∙ unfold count_one numbered in
      counted_if-append (fits path rest) (d_name ∷ []) (regular_files rest) p
count_entries_lem path (dt_dir d_name opens inside rest) p =
    rw (count_entries_lem (path ++ (b'/' ∷ d_name)) inside p) (
      count_dir (is_dots d_name) (ltb (length (path ++ (b'/' ∷ d_name))) 256) opens
        (fits (path ++ (b'/' ∷ d_name)) inside) (fits path rest) (regular_files inside)
        (regular_files rest) p (count_entries path rest) (count_entries_lem path rest))
count_entries_lem path (dt_other d_name rest) p = count_entries_lem path rest p

-- what `count_file` leaves then
abbrev finished_if : Bool → List (List ℕ) → Progress → Option (Bool × Progress)
finished_if fit names p = if fit then some (true, counted names p) else none

-- A directory that opens: if the path of each directory below it that is tried, other than `.` and `..`, has fewer than
-- 256 bytes, then every regular file below it, in directories that open, is counted and printed once, with numbers
-- that go on from the count so far, and nothing else is; otherwise a path is written behind the end of its buffer. One
-- that does not open changes nothing, and -1 is returned.
pub count_file_lem :
    (path : List ℕ) (inside : Entries) (p : Progress)
    → (count_file path true inside p ≡ finished_if (fits path inside) (regular_files inside) p)
      × (count_file path false inside p ≡ some (false, p))
unfolding count_file
count_file_lem path inside p =
    (ap finish (count_entries_lem path inside p) ∙ by_fit (fits path inside), refl)
  where
    finish : Option Progress → Option (Bool × Progress)
    finish none = none
    finish (some q) = some (true, q)

    by_fit :
        (fit : Bool)
        → finish (counted_if fit (regular_files inside) p)
          ≡ finished_if fit (regular_files inside) p
    by_fit true = refl
    by_fit false = refl
