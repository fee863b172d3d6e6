-- ===== src/Files/Find.antt =====
-- src/fs.cpp: the branch that a file stands on, and the branch with the most space.
use mergerfs.Base.{ℕ, List, [], ◌∷◌, Str, Option, none, some, ◌==◌, ltb, leb, if◌then◌else◌}
use mergerfs.Errno.{enoent}
use mergerfs.Os.{Os}
use mergerfs.Policy.Types.{View, Rv, success, failure, make, statvfs_cache_spaceavail}
use mergerfs.Files.{FileOs}

-- One round of `fs::mfs`, with `mfs` and `mfsbasepath`.
unfoldable pub mfs_step : ℕ → Str → Option ℕ → ℕ × Option Str → ℕ × Option Str
mfs_step minfreespace p none (mfs, best) = (mfs, best)
mfs_step minfreespace p (some spaceavail) (mfs, best) =
    if ltb spaceavail minfreespace
    then (mfs, best)
    else if leb spaceavail mfs
    then (mfs, best)
    else (spaceavail, some p)

unfoldable pub mfs_loop : View → ℕ → List Str → ℕ × Option Str → ℕ × Option Str
unfolding mfs_step statvfs_cache_spaceavail
mfs_loop v minfreespace [] s = s
mfs_loop v minfreespace (p ∷ ps) s =
    mfs_loop v minfreespace ps (mfs_step minfreespace p (statvfs_cache_spaceavail v p) s)

-- `fs::mfs`; `none` is ENOENT. A branch without a free byte is never chosen.
unfoldable pub mfs_path : View → ℕ → List Str → Option Str
unfolding mfs_loop
mfs_path v minfreespace ps = (mfs_loop v minfreespace ps (0, none)).1

module _ (os : Os) (fos : FileOs os) where
  open os use {World, FileStat}

  -- One round of `fs::findonfs`: the rest is left out if the path stands on the device.
  unfoldable pub find_step :
      ℕ → Str → (Rv × FileStat) × World → (World → (Rv × Str) × World) → (Rv × Str) × World
  find_step d p ((failure e, st), w) rest = rest w
  find_step d p ((success, st), w) rest = if fos.dev st == d then ((success, p), w) else rest w

  -- The loop of `fs::findonfs`.
  unfoldable pub find_on_dev : ℕ → Str → List Str → World → (Rv × Str) × World
  unfolding find_step make
  find_on_dev d fusepath [] w = ((failure enoent, []), w)
  find_on_dev d fusepath (p ∷ ps) w =
      find_step d p (fos.lstat (make p fusepath) w) (find_on_dev d fusepath ps)

  unfoldable pub find_from : Str → List Str → (Rv × FileStat) × World → (Rv × Str) × World
  unfolding find_on_dev
  find_from fusepath basepaths ((failure e, st), w) = ((failure e, []), w)
  find_from fusepath basepaths ((success, st), w) = find_on_dev (fos.dev st) fusepath basepaths w

  unfoldable pub findonfs : List Str → Str → ℕ → World → (Rv × Str) × World
  unfolding find_from
  findonfs basepaths fusepath fd w = find_from fusepath basepaths (fos.fstat fd w)
