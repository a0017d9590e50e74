-- ===== src/Tree/Tests.antt =====
-- A run of the count on a small tree.
use linux_api_and_socket_pro.Common.{◌≡◌, true, false, some, [], ◌∷◌, codes}
use linux_api_and_socket_pro.Http.Bytes.{str_eq}
use linux_api_and_socket_pro.Tree.Count.{
  Entries, none_left, dt_reg, dt_dir, dt_other, Progress, is_dots, count_file,
}
use linux_api_and_socket_pro.Tree.Count.Total.{regular_files, numbered, fits, count_file_lem}

-- `.`, a file, a directory with a file, one that does not open, and a device
abbrev small_tree : Entries
small_tree = dt_dir (codes ".") true (dt_reg (codes "x") none_left) (
    dt_reg (codes "a") (
      dt_dir (codes "d") true (dt_reg (codes "b") none_left)
        (dt_dir (codes "e") false none_left (dt_other (codes "tty") none_left))))

abbrev nothing_yet : Progress
nothing_yet = record { count = 0; lines = [] }

count_file_example :
    (count_file (codes "/tmp") true small_tree nothing_yet
      ≡ some (true, record { count = 2; lines = (1, codes "a") ∷ (2, codes "b") ∷ [] }))
    × (count_file (codes "/tmp") false small_tree nothing_yet ≡ some (false, nothing_yet))
unfolding regular_files numbered is_dots str_eq fits
count_file_example = count_file_lem (codes "/tmp") small_tree nothing_yet
