-- ===== src/Dirtree/Sys.antt =====
-- Lab2/202110421_assign2/dirtree.c: what the program asks of the system, as an interface.
use system_programming.Base.{ℕ, Bool, Option, List}
use system_programming.Base.Int.{ℤ}
use system_programming.Dirtree.Summary.{Stat}

-- `errno`, as far as it is read.
pub data Errno : Type 0 where
  eacces : Errno
  enoent : Errno
  another : Errno

-- `struct dirent`, as far as it is read.
pub record Dirent : Type 0 where
  pub d_name : List ℕ
  pub d_type : ℕ

-- What `readdir` returns, call by call: entries, and then the end or an error.
pub data Listing : Type 0 where
  finished : Listing
  read_error : Listing
  next : Dirent → Listing → Listing

pub data Opendir : Type 0 where
  open_failed : Errno → Opendir
  opened : Listing → Opendir

pub data Lstat : Type 0 where
  stat_failed : Errno → Lstat
  found : Stat → Lstat

-- The file system does not change while the program runs. `realloc` grants an array of so many entries or
-- not; `getpwuid` and `getgrgid` give a name.
pub record Sys : Type 0 where
  pub opendir : List ℕ → Opendir
  pub lstat : List ℕ → Lstat
  pub getpwuid : ℕ → Option (List ℕ)
  pub getgrgid : ℕ → Option (List ℕ)
  pub realloc : ℕ → Bool
  pub qsort : (Dirent → Dirent → ℤ) → List Dirent → List Dirent
