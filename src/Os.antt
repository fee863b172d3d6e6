-- ===== src/Os.antt =====
-- What the program asks of the operating system: the calls behind the wrappers src/fs_base_*.hpp,
-- with the effect of each on the world. They are parameters of the model. A call returns 0, or -1
-- with an `errno`; what the wrappers of attributes (src/fs_attr.cpp, src/fs_xattr.cpp) and of
-- ownership do is also left to this record.
pub mod Laws
use mergerfs.Base.{ℕ, ◌<◌, ℤ, pos, negsuc, List, Str}
use mergerfs.Policy.Types.{View, Rv, success, failure}

abbrev pub Timespecs : Type 0
Timespecs = record { atime_sec : ℤ; atime_nsec : ℤ; mtime_sec : ℤ; mtime_nsec : ℤ }

pub record Os : Type 1 where
  pub World : Type 0
  -- `struct stat`, for those who pass it on
  pub FileStat : Type 0
  pub mode : FileStat → ℕ
  -- what the calls of a policy would answer now, and what `std::random_shuffle` would do
  pub view : World → View
  pub random_shuffle : World → List Str → List Str
  pub stat : Str → World → (Rv × FileStat) × World
  pub lgetxattr : Str → Str → World → Rv × World
  pub unlink : Str → World → Rv × World
  pub rmdir : Str → World → Rv × World
  pub remove : Str → World → Rv × World
  pub chmod : Str → ℕ → World → Rv × World
  pub lchown : Str → ℕ → ℕ → World → Rv × World
  pub truncate : Str → ℤ → World → Rv × World
  pub lutime : Str → Timespecs → World → Rv × World
  pub lremovexattr : Str → Str → World → Rv × World
  pub lsetxattr : Str → Str → Str → ℕ → World → Rv × World
  pub rename : Str → Str → World → Rv × World
  pub link : Str → Str → World → Rv × World
  pub symlink : Str → Str → World → Rv × World
  pub mkdir : Str → ℕ → World → Rv × World
  pub mknod : Str → ℕ → ℕ → World → Rv × World
  pub copy_attr : Str → Str → World → Rv × World
  pub copy_xattr : Str → Str → World → Rv × World
  pub lchown_check_on_error : Str → FileStat → World → Rv × World
  pub utime : Str → FileStat → World → Rv × World

-- A call as C sees it: its return value, and `errno` where that is -1.
abbrev pub rv_of : Rv → ℤ
rv_of success = pos 0
rv_of (failure e) = negsuc 0

-- `errno` keeps an older value after a success; the program does not read it then.
abbrev pub errno_of : Rv → ℕ
errno_of success = 0
errno_of (failure e) = e

-- A call that fails sets a positive `errno`.
abbrev pub SetsErrno : Rv → Type 0
SetsErrno success = Unit
SetsErrno (failure e) = 0 < e
