-- ===== src/Files/Clone.antt =====
-- src/fs_clonefile.cpp: the data and the metadata of a file are copied to another.
use mergerfs.Base.{ℕ, not, ◌||◌, ◌==◌, if◌then◌else◌}
use mergerfs.Errno.{einval, enosys, enotsup}
use mergerfs.Os.{Os}
use mergerfs.Policy.Types.{Rv, success, failure}
use mergerfs.ClonePath.{ignorable_error}
use mergerfs.Files.{FileOs}

module _ (os : Os) (fos : FileOs os) where
  open os use {World, FileStat}

  -- `copydata` of src/fs_clonefile.cpp: the next way of copying is tried if this one is not there.
  -- How many bytes `copy_file_range` and `sendfile` have copied is not looked at.
  unfoldable pub after_sendfile : ℕ → ℕ → (Rv × ℕ) × World → Rv × World
  after_sendfile src_fd dst_fd ((success, n), w) = (success, w)
  after_sendfile src_fd dst_fd ((failure e, n), w) =
      if (e == einval) || (e == enosys) then fos.copyfile src_fd dst_fd w else (failure e, w)

  unfoldable pub after_copy_file_range : ℕ → ℕ → ℕ → (Rv × ℕ) × World → Rv × World
  unfolding after_sendfile
  after_copy_file_range src_fd dst_fd count ((success, n), w) = (success, w)
  after_copy_file_range src_fd dst_fd count ((failure e, n), w) =
      if e == enotsup
      then after_sendfile src_fd dst_fd (fos.sendfile src_fd dst_fd count w)
      else (failure e, w)

  unfoldable pub after_ficlone : ℕ → ℕ → ℕ → Rv × World → Rv × World
  unfolding after_copy_file_range
  after_ficlone src_fd dst_fd count (success, w) = (success, w)
  after_ficlone src_fd dst_fd count (failure e, w) =
      if e == enotsup
      then after_copy_file_range src_fd dst_fd count (fos.copy_file_range src_fd dst_fd count w)
      else (failure e, w)

  unfoldable pub copydata : ℕ → ℕ → ℕ → World → Rv × World
  unfolding after_ficlone
  copydata src_fd dst_fd count w =
      after_ficlone src_fd dst_fd count
        (fos.ficlone src_fd dst_fd (fos.prepare src_fd dst_fd count w))

  -- `fs::clonefile`, from its last calls to its first.
  unfoldable pub after_fchmod : ℕ → FileStat → Rv × World → Rv × World
  after_fchmod dst_fd st (failure e, w) = (failure e, w)
  after_fchmod dst_fd st (success, w) = fos.futime dst_fd st w

  unfoldable pub after_fchown : ℕ → FileStat → Rv × World → Rv × World
  unfolding after_fchmod
  after_fchown dst_fd st (failure e, w) = (failure e, w)
  after_fchown dst_fd st (success, w) =
      after_fchmod dst_fd st (fos.fchmod_check_on_error dst_fd st w)

  unfoldable pub owned : ℕ → FileStat → World → Rv × World
  unfolding after_fchown
  owned dst_fd st w = after_fchown dst_fd st (fos.fchown_check_on_error dst_fd st w)

  unfoldable pub after_xattr : ℕ → FileStat → Rv × World → Rv × World
  unfolding owned ignorable_error
  after_xattr dst_fd st (failure e, w) =
      if not (ignorable_error e) then (failure e, w) else owned dst_fd st w
  after_xattr dst_fd st (success, w) = owned dst_fd st w

  unfoldable pub with_xattr : ℕ → ℕ → FileStat → World → Rv × World
  unfolding after_xattr
  with_xattr src_fd dst_fd st w = after_xattr dst_fd st (fos.copy_fd_xattr src_fd dst_fd w)

  unfoldable pub after_attr : ℕ → ℕ → FileStat → Rv × World → Rv × World
  unfolding with_xattr ignorable_error
  after_attr src_fd dst_fd st (failure e, w) =
      if not (ignorable_error e) then (failure e, w) else with_xattr src_fd dst_fd st w
  after_attr src_fd dst_fd st (success, w) = with_xattr src_fd dst_fd st w

  unfoldable pub after_data : ℕ → ℕ → FileStat → Rv × World → Rv × World
  unfolding after_attr
  after_data src_fd dst_fd st (failure e, w) = (failure e, w)
  after_data src_fd dst_fd st (success, w) =
      after_attr src_fd dst_fd st (fos.copy_fd_attr src_fd dst_fd w)

  unfoldable pub clone_fds : ℕ → ℕ → (Rv × FileStat) × World → Rv × World
  unfolding after_data copydata
  clone_fds src_fd dst_fd ((failure e, st), w) = (failure e, w)
  clone_fds src_fd dst_fd ((success, st), w) =
      after_data src_fd dst_fd st (copydata src_fd dst_fd (fos.size st) w)

  unfoldable pub clonefile : ℕ → ℕ → World → Rv × World
  unfolding clone_fds
  clonefile src_fd dst_fd w = clone_fds src_fd dst_fd (fos.fstat src_fd w)
