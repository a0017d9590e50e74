-- ===== src/Http/Files.antt =====
-- What the servers ask of the file system, as a parameter: it is not part of the repository.
use linux_api_and_socket_pro.Common.{ℕ, Option, List}

pub data Mode : Type 0 where
  directory regular special : Mode

pub record Stat : Type 0 where
  pub st_mode : Mode
  pub st_size : ℕ

-- `stat` and `open` fail by `none`; an open file is its contents. `scandir` gives the names of a directory,
-- none where it fails. `stale` is what an
-- uninitialised `struct stat` holds when `stat` fails for a name.
pub record FileSystem : Type 0 where
  pub stat : List ℕ → Option Stat
  pub open_file : List ℕ → Option (List ℕ)
  pub scandir : List ℕ → List (List ℕ)
  pub stale : List ℕ → Stat
