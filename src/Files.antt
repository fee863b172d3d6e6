-- ===== src/Files.antt =====
-- The calls on open files that the program makes, as parameters of the model.
pub mod Find
pub mod Clone
pub mod Among
pub mod Trace
pub mod Cloned
pub mod Assumed
pub mod Spared
use mergerfs.Base.{ℕ, ℤ, not, Str}
use mergerfs.Os.{Os}
use mergerfs.Policy.Types.{Rv}

-- The calls on descriptors. `errno` is part of `Rv`; the calls whose results the program does not
-- look at only change the world. `copyfile` stands for the loop of src/fs_copyfile.cpp, and
-- `copy_file_range`, `sendfile` and `ficlone` for the system calls of these names, which may copy less
-- than was asked for: the number is how many bytes. `sys_creat` is `open` with a mode, `letters` gives
-- six letters by `rand`, and `clock` the seconds of the time.
pub record FileOs (os : Os) : Type 0 where
  pub dev : os.FileStat → ℕ
  pub size : os.FileStat → ℕ
  pub nlink : os.FileStat → ℕ
  pub fstat : ℕ → os.World → (Rv × os.FileStat) × os.World
  pub lstat : Str → os.World → (Rv × os.FileStat) × os.World
  pub getfl : ℕ → os.World → ℤ × os.World
  pub setfl : ℕ → ℤ → os.World → Rv × os.World
  pub sys_open : Str → ℕ → os.World → (Rv × ℕ) × os.World
  pub mkstemp : Str → os.World → (Rv × (ℕ × Str)) × os.World
  pub close : ℕ → os.World → os.World
  pub sys_creat : Str → ℕ → ℕ → os.World → (Rv × ℕ) × os.World
  pub pwrite : ℕ → Str → ℕ → os.World → (Rv × ℕ) × os.World
  pub letters : os.World → Str × os.World
  pub clock : os.World → ℕ
  pub prepare : ℕ → ℕ → ℕ → os.World → os.World
  pub ficlone : ℕ → ℕ → os.World → Rv × os.World
  pub copy_file_range : ℕ → ℕ → ℕ → os.World → (Rv × ℕ) × os.World
  pub sendfile : ℕ → ℕ → ℕ → os.World → (Rv × ℕ) × os.World
  pub copyfile : ℕ → ℕ → os.World → Rv × os.World
  pub copy_fd_attr : ℕ → ℕ → os.World → Rv × os.World
  pub copy_fd_xattr : ℕ → ℕ → os.World → Rv × os.World
  pub fchown_check_on_error : ℕ → os.FileStat → os.World → Rv × os.World
  pub fchmod_check_on_error : ℕ → os.FileStat → os.World → Rv × os.World
  pub futime : ℕ → os.FileStat → os.World → Rv × os.World
