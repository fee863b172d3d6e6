-- ===== src/Files/Trace.antt =====
-- src/fs_clonefile.cpp: the calls that a copy that succeeds has made, in their order.
use mergerfs.Base.{ℕ, ◌≡◌, true, ◌⊎◌}
use mergerfs.Errno.{einval, enosys, enotsup}
use mergerfs.Os.{Os}
use mergerfs.Policy.Types.{Rv, success, failure}
use mergerfs.ClonePath.{ignorable_error}
use mergerfs.Files.{FileOs}

-- The data were copied by the first of the four ways that is there. What `copy_file_range` and
-- `sendfile` say of how much they have copied is not looked at.
pub data DataCopied (os : Os) (fos : FileOs os) (a b n : ℕ) (w w' : os.World) : Type 0 where
  by_ficlone : fos.ficlone a b w ≡ (success, w') → DataCopied os fos a b n w w'
  by_copy_file_range :
      (e m : ℕ) (w1 : os.World)
      → fos.ficlone a b w ≡ (failure e, w1)
      → e ≡ enotsup
      → fos.copy_file_range a b n w1 ≡ ((success, m), w')
      → DataCopied os fos a b n w w'
  by_sendfile :
      (e d m k : ℕ) (w1 w2 : os.World)
      → fos.ficlone a b w ≡ (failure e, w1)
      → e ≡ enotsup
      → fos.copy_file_range a b n w1 ≡ ((failure d, m), w2)
      → d ≡ enotsup
      → fos.sendfile a b n w2 ≡ ((success, k), w')
      → DataCopied os fos a b n w w'
  by_copyfile :
      (e d m c k : ℕ) (w1 w2 w3 : os.World)
      → fos.ficlone a b w ≡ (failure e, w1)
      → e ≡ enotsup
      → fos.copy_file_range a b n w1 ≡ ((failure d, m), w2)
      → d ≡ enotsup
      → fos.sendfile a b n w2 ≡ ((failure c, k), w3)
      → (c ≡ einval) ⊎ (c ≡ enosys)
      → fos.copyfile a b w3 ≡ (success, w')
      → DataCopied os fos a b n w w'

-- A call succeeded, or failed with an error that is ignored.
abbrev pub IsTolerated : {W : Type 0} → Rv × W → W → Type 0
IsTolerated x w' =
    (x ≡ (success, w')) ⊎ ((e : ℕ) × (x ≡ (failure e, w')) × (ignorable_error e ≡ true))

-- All of `clonefile` from `a` to `b`: as many bytes as `a` has, then the attributes and extended
-- attributes, which a file system need not have, then owner, mode and times.
pub record IsCloned (os : Os) (fos : FileOs os) (a b : ℕ) (w w' : os.World) : Type 0 where
  pub st : os.FileStat
  pub sized : os.World
  pub filled : os.World
  pub with_attr : os.World
  pub with_xattr : os.World
  pub with_owner : os.World
  pub with_mode : os.World
  pub by_fstat : fos.fstat a w ≡ ((success, st), sized)
  pub data_copied : DataCopied os fos a b (fos.size st) (fos.prepare a b (fos.size st) sized) filled
  pub attr : IsTolerated (fos.copy_fd_attr a b filled) with_attr
  pub xattr : IsTolerated (fos.copy_fd_xattr a b with_attr) with_xattr
  pub by_fchown : fos.fchown_check_on_error b st with_xattr ≡ (success, with_owner)
  pub by_fchmod : fos.fchmod_check_on_error b st with_owner ≡ (success, with_mode)
  pub by_futime : fos.futime b st with_mode ≡ (success, w')
