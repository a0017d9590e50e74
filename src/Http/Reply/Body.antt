-- ===== src/Http/Reply/Body.antt =====
-- What the blocks of a file or of a directory page add up to.
use linux_api_and_socket_pro.Common.{
  ℕ, zero, suc, ◌+◌, ◌≤◌, ◌<◌, ◌≡◌, refl, sym, ap, ◌∙◌, inl, inr, true, Option, none, some, List,
  [], ◌∷◌, ◌++◌, map, append-nil, append_assoc, arith, ltb, Option-cases, length, drop, All,
  take-append-drop, length-take, length-drop,
}
use linux_api_and_socket_pro.Http.Files.{FileSystem}
use linux_api_and_socket_pro.Http.Reply.{
  send_blocks, max_buff_size, send_file, dir_head, dir_foot, dir_row, entry_stat, fits_file,
  send_rows, send_dir,
}
use linux_api_and_socket_pro.Http.Reply.Head.{concat}

abbrev pub IsBlock : ℕ → List ℕ → Type 0
IsBlock size b = (0 < length b) × (length b ≤ size)

pub send_blocks_lem :
    (fuel size : ℕ) (file : List ℕ)
    → 0 < size
    → length file ≤ fuel
    → (concat (send_blocks fuel size file) ≡ file) × All (IsBlock size) (send_blocks fuel size file)
unfolding send_blocks
send_blocks_lem zero size [] pos enough = (refl, tt)
send_blocks_lem zero size (b ∷ file) pos enough = absurd (omega arith)
send_blocks_lem (suc fuel) size [] pos enough = (refl, tt)
send_blocks_lem (suc fuel) zero (b ∷ file) pos enough = absurd (omega arith)
send_blocks_lem (suc fuel) (suc size) (b ∷ file) pos enough =
    let (whole, blocks) =
      send_blocks_lem fuel (suc size) (drop size file) pos (omega (arith, length-drop size file)) in
    (
      ap (λ l. b ∷ l) (rw whole (take-append-drop size file)),
      ((omega arith, omega (arith, length-take size file)), blocks),
    )

-- the contents of a file, or nothing if it cannot be opened
abbrev pub contents_or_none : Option (List ℕ) → List ℕ
contents_or_none none = []
contents_or_none (some file) = file

-- A file that can be opened is sent whole and in order, in blocks of 1 to 1024 bytes.
pub send_file_lem :
    (fs : FileSystem) (path file : List ℕ)
    → fs.open_file path ≡ some file
    → (concat (send_file fs path) ≡ file) × All (IsBlock 1024) (send_file fs path)
unfolding send_file
send_file_lem fs path file opened =
    rw (opened, send_file)
      (send_blocks_lem (length file) max_buff_size file (omega arith) (omega arith))

-- The path of an entry has fewer than 1024 bytes.
abbrev pub FitsFile : List ℕ → List ℕ → Type 0
FitsFile path name = length (path ++ (b'/' ∷ name)) < 1024

fits_file_lem : (path name : List ℕ) → FitsFile path name → fits_file path name ≡ true
fits_file_lem path name h = below (length (path ++ (b'/' ∷ name))) h
  where
    below : (n : ℕ) → n < 1024 → ltb n 1024 ≡ true
    below n lt = ground arith

send_rows_lem :
    (fs : FileSystem) (path buff : List ℕ) (names : List (List ℕ))
    → All (FitsFile path) names
    → (rows : List (List ℕ)) × (send_rows fs path buff names ≡ some rows)
      × (concat rows
          ≡ buff
            ++ (concat (map (λ name. dir_row name (entry_stat fs path name)) names) ++ dir_foot))
      × (length rows ≡ length names + 1)
unfolding send_rows
send_rows_lem fs path buff [] fits = ((buff ++ dir_foot) ∷ [], refl, append-nil _, omega arith)
send_rows_lem fs path buff (name ∷ names) fits =
    let (rows, e, bytes, calls) = send_rows_lem fs path [] names fits.1 in
    (
      (buff ++ row) ∷ rows,
      rw (fits_file_lem path name fits.0, e) refl,
      append_assoc buff _ _
          ∙ ap (λ l. buff ++ l) (ap (λ l. row ++ l) bytes ∙ sym (append_assoc row _ dir_foot)),
      omega arith,
    )
  where
    row : List ℕ
    row = dir_row name (entry_stat fs path name)

-- Where the paths of the entries fit `file`, a directory page is its head, one row for each name that `scandir` gives, in that order, and its foot;
-- it takes one call of `send` for each name and one more.
pub send_dir_lem :
    (fs : FileSystem) (path : List ℕ)
    → All (FitsFile path) (fs.scandir path)
    → (rows : List (List ℕ)) × (send_dir fs path ≡ some rows)
      × (concat rows
          ≡ dir_head path
            ++ (concat (map (λ name. dir_row name (entry_stat fs path name)) (fs.scandir path))
                ++ dir_foot))
      × (length rows ≡ length (fs.scandir path) + 1)
unfolding send_dir
send_dir_lem fs path fits = send_rows_lem fs path (dir_head path) (fs.scandir path) fits

pub concat-send_file :
    (fs : FileSystem) (path : List ℕ)
    → concat (send_file fs path) ≡ contents_or_none (fs.open_file path)
unfolding send_file
concat-send_file fs path = elim (Option-cases (fs.open_file path)) [
  | inl e ↦ rw (e, send_file)
  | inr (file, e) ↦ rw e (send_file_lem fs path file e).0
]
