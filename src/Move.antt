-- ===== src/Move.antt =====
-- src/fs_movefile.cpp: a file is moved to another branch, with the descriptor that is open on it.
pub mod Source
pub mod Trace
pub mod Order
use mergerfs.Base.{ℕ, ◌+◌, ◌%◌, ℤ, false, List, Str, Option, none, some}
use mergerfs.Errno.{enoent}
use mergerfs.Path.{dirname}
use mergerfs.StatVfs.{u64_mod}
use mergerfs.Os.{Os}
use mergerfs.Policy.Types.{Rv, success, failure, make}
use mergerfs.ClonePath.{clonepath}
use mergerfs.Files.{FileOs}
use mergerfs.Files.Find.{mfs_path, findonfs}
use mergerfs.Files.Clone.{clonefile}

module _ (os : Os) (fos : FileOs os) where
  open os use {World, FileStat}

  -- The answer, and what `origfd` is afterwards.
  abbrev pub Moved : Type 0
  Moved = (Rv × ℕ) × World

  -- `cleanup:`
  unfoldable pub clean_up : ℕ → ℕ → Str → ℕ → ℕ → World → Moved
  clean_up fdin fdout temp origfd e w =
      ((failure e, origfd), (os.unlink temp (fos.close fdout (fos.close fdin w))).1)

  -- From `rv = fs::rename(fdout_temp,fdout_path)` on.
  unfoldable pub after_rename : Str → ℕ → ℕ → Str → ℕ → Rv × World → Moved
  unfolding clean_up
  after_rename fdin_path fdin fdout temp origfd (failure e, w) = clean_up fdin fdout temp origfd e w
  after_rename fdin_path fdin fdout temp origfd (success, w) =
      ((success, fdout), fos.close origfd (fos.close fdin (os.unlink fdin_path w).1))

  -- From `rv = fs::setfl(fdout,fdin_flags)` on.
  unfoldable pub after_setfl : Str → Str → ℕ → ℕ → Str → ℕ → Rv × World → Moved
  unfolding clean_up after_rename
  after_setfl fdin_path fdout_path fdin fdout temp origfd (failure e, w) =
      clean_up fdin fdout temp origfd e w
  after_setfl fdin_path fdout_path fdin fdout temp origfd (success, w) =
      after_rename fdin_path fdin fdout temp origfd (os.rename temp fdout_path w)

  -- From `rv = fs::clonefile(fdin,fdout)` on.
  unfoldable pub after_copy : ℤ → Str → Str → ℕ → ℕ → Str → ℕ → Rv × World → Moved
  unfolding clean_up after_setfl
  after_copy flags fdin_path fdout_path fdin fdout temp origfd (failure e, w) =
      clean_up fdin fdout temp origfd e w
  after_copy flags fdin_path fdout_path fdin fdout temp origfd (success, w) =
      after_setfl fdin_path fdout_path fdin fdout temp origfd (fos.setfl fdout flags w)

  -- From `fdout = fs::mkstemp(fdout_temp)` on; `fdin` stays open if that fails.
  unfoldable pub after_temp : ℤ → Str → Str → ℕ → ℕ → (Rv × (ℕ × Str)) × World → Moved
  unfolding after_copy clonefile
  after_temp flags fdin_path fdout_path fdin origfd ((failure e, made), w) =
      ((failure e, origfd), w)
  after_temp flags fdin_path fdout_path fdin origfd ((success, (fdout, temp)), w) =
      after_copy flags fdin_path fdout_path fdin fdout temp origfd (clonefile os fos fdin fdout w)

  -- From `fdin = fs::open(fdin_path,O_RDONLY)` on.
  unfoldable pub after_open : ℤ → Str → Str → ℕ → (Rv × ℕ) × World → Moved
  unfolding after_temp
  after_open flags fdin_path fdout_path origfd ((failure e, fdin), w) = ((failure e, origfd), w)
  after_open flags fdin_path fdout_path origfd ((success, fdin), w) =
      after_temp flags fdin_path fdout_path fdin origfd (fos.mkstemp fdout_path w)

  -- From `rv = fs::clonepath(fdin_path,fdout_path,fusedir)` on.
  unfoldable pub after_path : ℤ → Str → Str → ℕ → Rv × World → Moved
  unfolding after_open
  after_path flags fdin_path fdout_path origfd (failure e, w) = ((failure e, origfd), w)
  after_path flags fdin_path fdout_path origfd (success, w) =
      after_open flags fdin_path fdout_path origfd (fos.sys_open fdin_path 0 w)

  -- From the choice of the new branch on.
  unfoldable pub to_branch : ℤ → Str → Str → ℕ → Option Str → World → Moved
  unfolding after_path make clonepath dirname
  to_branch flags fusepath inbase origfd none w = ((failure enoent, origfd), w)
  to_branch flags fusepath inbase origfd (some outbase) w =
      after_path flags (make inbase fusepath) (make outbase fusepath) origfd
        (clonepath os false inbase outbase (dirname fusepath) w)

  unfoldable pub after_find : ℤ → ℕ → List Str → Str → ℕ → (Rv × Str) × World → Moved
  unfolding to_branch mfs_path
  after_find flags needed basepaths fusepath origfd ((failure e, inbase), w) =
      ((failure e, origfd), w)
  after_find flags needed basepaths fusepath origfd ((success, inbase), w) =
      to_branch flags fusepath inbase origfd (mfs_path (os.view w) needed basepaths) w

  unfoldable pub after_fstat : List Str → Str → ℕ → ℕ → (Rv × FileStat) × World → Moved
  unfolding after_find findonfs
  after_fstat basepaths fusepath additional_size origfd ((failure e, st), w) =
      ((failure e, origfd), w)
  after_fstat basepaths fusepath additional_size origfd ((success, st), w) =
      let (flags, w') = fos.getfl origfd w in
      after_find flags ((fos.size st + additional_size) % u64_mod) basepaths fusepath origfd
        (findonfs os fos basepaths fusepath origfd w')

  -- `fs::movefile`
  unfoldable pub movefile : List Str → Str → ℕ → ℕ → World → Moved
  unfolding after_fstat
  movefile basepaths fusepath additional_size origfd w =
      after_fstat basepaths fusepath additional_size origfd (fos.fstat origfd w)
