-- ===== src/Policy/Types.antt =====
-- What a policy reads and returns: src/policy.hpp, src/category.hpp, src/policy_error.hpp,
-- src/fs_exists.hpp and src/fs_info.cpp.
use mergerfs.Base.{
  ℕ, ℤ, Bool, true, false, ◌&&◌, not, Option, none, some, List, [], ◌∷◌, ◌++◌, Str, if◌then◌else◌,
  ◌==◌,
}
use mergerfs.Errno.{enoent, enospc, erofs}
use mergerfs.Branch.{Branches}
use mergerfs.StatVfs
use mergerfs.StatVfs.{StatVfs}

-- `Category::Enum::Type`
pub data Category : Type 0 where
  invalid action create search : Category

-- `struct stat`, as far as a policy reads it.
pub record Stat : Type 0 where
  pub mtime : ℤ

-- What the calls on the branches answer while a policy runs: `fs::lstat` of a full path, and
-- `fs::statvfs_cache` of a branch's path; `none` is a return of -1.
pub record View : Type 0 where
  pub lstat : Str → Option Stat
  pub statvfs : Str → Option StatVfs

-- `return 0`, or `return (errno=e,-1)`.
pub data Rv : Type 0 where
  success : Rv
  failure : ℕ → Rv

-- The result and the vector `paths`, which the caller hands in and the policy appends to.
abbrev pub Outcome : Type 0
Outcome = Rv × List Str

-- `Policy::Func::Ptr`
abbrev pub Func : Type 0
Func = Category → Branches → Str → ℕ → List Str → Outcome

-- `fs::info_t`
pub record Info : Type 0 where
  pub readonly : Bool
  pub spaceavail : ℕ
  pub spaceused : ℕ

-- `fs::path::make`
unfoldable pub make : Str → Str → Str
make base suffix = base ++ suffix

-- `fs::exists(basepath,relpath,st)`: the result of the test and what it stores in `st`.
unfoldable pub exists_stat : View → Str → Str → Option Stat
unfolding make
exists_stat v base rel = v.lstat (make base rel)

unfoldable pub exists : View → Str → Str → Bool
unfolding exists_stat
exists v base rel = elim (exists_stat v base rel) [ none ↦ false | some st ↦ true ]

unfoldable pub info : View → Str → Option Info
unfolding StatVfs.readonly StatVfs.spaceavail StatVfs.spaceused
info v path = elim (v.statvfs path) [
  | none ↦ none
  | some st ↦ some (record {
    readonly = StatVfs.readonly st;
    spaceavail = StatVfs.spaceavail st;
    spaceused = StatVfs.spaceused st;
  })
]

unfoldable pub statvfs_cache_readonly : View → Str → Option Bool
unfolding StatVfs.readonly
statvfs_cache_readonly v path = elim (v.statvfs path) [
  | none ↦ none
  | some st ↦ some (StatVfs.readonly st)
]

unfoldable pub statvfs_cache_spaceavail : View → Str → Option ℕ
unfolding StatVfs.spaceavail
statvfs_cache_spaceavail v path = elim (v.statvfs path) [
  | none ↦ none
  | some st ↦ some (StatVfs.spaceavail st)
]

unfoldable pub statvfs_cache_spaceused : View → Str → Option ℕ
unfolding StatVfs.spaceused
statvfs_cache_spaceused v path = elim (v.statvfs path) [
  | none ↦ none
  | some st ↦ some (StatVfs.spaceused st)
]

-- `policy::calc_error`: which of two reasons to report.
unfoldable pub calc_error : ℕ → ℕ → ℕ
calc_error cur err =
    if cur == enospc
    then if not (err == enoent) then err else cur
    else if cur == erofs
    then if not (err == enoent) && not (err == enospc) then err else cur
    else err

-- The tail `if(paths.empty()) return (errno=error,-1); return 0;`.
unfoldable pub unless_empty : ℕ → List Str → Outcome
unless_empty error [] = (failure error, [])
unless_empty error (p ∷ ps) = (success, p ∷ ps)
