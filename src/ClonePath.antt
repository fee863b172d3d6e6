-- ===== src/ClonePath.antt =====
-- src/fs_clonepath.cpp: a directory and its parents are made on another branch. The change of the
-- thread's user to root (`ugid::SetRootGuard`) is not modelled.
pub mod Frame
pub mod Errors
use mathlib.Core.WellFounded.{Acc}
use mergerfs.Base.{
  ℕ, ◌<◌, ◌/◌, ◌%◌, Bool, true, false, ◌&&◌, ◌||◌, not, List, [], ◌∷◌, Str, ◌==◌, str_eq,
  if◌then◌else◌, length, arith,
}
use mergerfs.Errno.{eexist, enotdir, enotty, enotsup}
use mergerfs.Path.{dirname}
use mergerfs.Path.Length.{dirname-lt, Shorter, Shorter_acc}
use mergerfs.Os.{Os}
use mergerfs.Policy.Types.{Rv, success, failure, make}

unfoldable pub ignorable_error : ℕ → Bool
ignorable_error err = err == enotty || err == enotsup

-- `S_ISDIR`: the file type of the mode is that of a directory.
unfoldable pub is_dir : ℕ → Bool
is_dir mode = mode / 4096 % 16 == 4

-- Does a failed copy of metadata end the function? `tolerant` is whether its errors are looked at.
unfoldable pub metadata_fails : Bool → Bool → Rv → Bool
unfolding ignorable_error
metadata_fails return_errors tolerant success = false
metadata_fails return_errors tolerant (failure e) =
    return_errors && not (tolerant && ignorable_error e)

module _ (os : Os) where
  open os use {
    World, FileStat, mode, stat, mkdir, copy_attr, copy_xattr, lchown_check_on_error, utime,
  }

  -- The four copies of metadata after a directory was made.
  unfoldable pub clone_metadata : Bool → Str → Str → FileStat → World → Rv × World
  unfolding metadata_fails
  clone_metadata return_errors frompath topath st w =
      let (r1, w1) = copy_attr frompath topath w in
      if metadata_fails return_errors true r1
      then (r1, w1)
      else let (r2, w2) = copy_xattr frompath topath w1 in
        if metadata_fails return_errors true r2
        then (r2, w2)
        else let (r3, w3) = lchown_check_on_error topath st w2 in
          if metadata_fails return_errors false r3
          then (r3, w3)
          else let (r4, w4) = utime topath st w3 in
            if metadata_fails return_errors false r4 then (r4, w4) else (success, w4)

  -- `rv = fs::mkdir(topath,st.st_mode);` and what follows it.
  unfoldable pub made_dir : Bool → Str → Str → FileStat → Rv × World → Rv × World
  unfolding clone_metadata
  made_dir return_errors frompath topath st (success, w) =
      clone_metadata return_errors frompath topath st w
  made_dir return_errors frompath topath st (failure e, w) =
      (if e == eexist then success else failure e, w)

  -- `rv = fs::stat(frompath,&st);` and what follows it.
  unfoldable pub after_stat : Bool → Str → Str → Str → (Rv × FileStat) × World → Rv × World
  unfolding is_dir made_dir make
  after_stat return_errors fromsrc tosrc relative ((failure e, st), w) = (failure e, w)
  after_stat return_errors fromsrc tosrc relative ((success, st), w) =
      if not (is_dir (mode st))
      then (failure enotdir, w)
      else made_dir return_errors (make fromsrc relative) (make tosrc relative) st
          (mkdir (make tosrc relative) (mode st) w)

  -- The function below the clone of the parent: the directory itself.
  unfoldable pub clone_dir : Bool → Str → Str → Str → World → Rv × World
  unfolding after_stat
  clone_dir return_errors fromsrc tosrc relative w =
      after_stat return_errors fromsrc tosrc relative (stat (make fromsrc relative) w)

  -- `if(!dirname.empty()) { rv = fs::clonepath(...,dirname); if(rv == -1) return -1; }`: the errors
  -- of the metadata of the parents are not asked for.
  unfoldable pub after_parent : (World → Rv × World) → Rv × World → Rv × World
  after_parent rest (success, w) = rest w
  after_parent rest (failure e, w) = (failure e, w)

  unfoldable pub with_parent :
      Str → (World → Rv × World) → (World → Rv × World) → World → Rv × World
  unfolding after_parent
  with_parent [] parent rest w = rest w
  with_parent (d ∷ ds) parent rest w = after_parent rest (parent w)

  -- One call; `parent` is the recursive call, on a shorter path.
  abbrev clone_step :
      Bool
      → Str
      → Str
      → (relative : Str) → ((dir : Str) → Shorter dir relative → World → Rv × World)
      → World
      → Rv × World
  clone_step return_errors fromsrc tosrc [] parent w = (success, w)
  clone_step return_errors fromsrc tosrc (c ∷ s) parent w =
      with_parent (dirname (c ∷ s)) (parent (dirname (c ∷ s)) (dirname-lt (c ∷ s) (omega arith)))
        (clone_dir return_errors fromsrc tosrc (c ∷ s)) w

  clone_acc : Bool → Str → Str → (relative : Str) → Acc Shorter relative → World → Rv × World
  unfolding clone_dir dirname with_parent
  clone_acc return_errors fromsrc tosrc relative (Acc.intro _ smaller) =
      clone_step return_errors fromsrc tosrc relative
        (λ dir shorter. clone_acc false fromsrc tosrc dir (smaller dir shorter))

  unfoldable pub clonepath : Bool → Str → Str → Str → World → Rv × World
  unfolding clone_acc Shorter_acc
  clonepath return_errors fromsrc tosrc relative =
      clone_acc return_errors fromsrc tosrc relative (Shorter_acc relative)

  -- `fs::clonepath_as_root`, as it is called everywhere: errors of metadata are not returned.
  unfoldable pub clonepath_as_root : Str → Str → Str → World → Rv × World
  unfolding clonepath str_eq
  clonepath_as_root from to [] w = (success, w)
  clonepath_as_root from to (c ∷ s) w =
      if str_eq from to then (success, w) else clonepath false from to (c ∷ s) w
