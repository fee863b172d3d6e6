-- ===== src/Fuse/Readdir.antt =====
-- src/fuse_readdir.cpp: the names of a directory on all branches, each of them once. The hash of
-- src/hashset.hpp is a parameter, and its set is a list of the hashes that were put in.
pub mod Union
use Prim.Native.Nat.{bit_or}
use mergerfs.Base.{
  ℕ, suc, ◌+◌, ◌*◌, ◌%◌, ◌^◌, ℤ, pos, neg_of, Bool, true, false, List, [], ◌∷◌, ◌++◌, Str, Option,
  none, some, ◌==◌, if◌then◌else◌,
}
use mergerfs.StatVfs.{u64_mod}
use mergerfs.Branch.{Branches}
use mergerfs.Policy.Types.{make}

-- `struct dirent`
pub record Dirent : Type 0 where
  pub d_name : Str
  pub d_ino : ℕ
  pub d_type : ℕ

-- A directory that was opened: `fs::devid` of it, which may fail, and its entries.
pub record Dir : Type 0 where
  pub devid : Option ℕ
  pub entries : List Dirent

-- What is filled in of `struct stat`.
pub record DirStat : Type 0 where
  pub st_dev : ℕ
  pub st_ino : ℕ
  pub st_mode : ℕ

-- `fuse_fill_dir_t`, with its buffer and the names that the buffer shows; `none` is a failure.
pub record Filler : Type 1 where
  pub Buffer : Type 0
  pub fill : Buffer → Str → DirStat → Option Buffer
  pub shown : Buffer → List Str

abbrev pub enomem : ℕ
enomem = 12

unfoldable pub is_put : ℕ → List ℕ → Bool
is_put h [] = false
is_put h (k ∷ ks) = if h == k then true else is_put h ks

-- The branch's index stands for a device that has no number.
unfoldable pub device : ℕ → Option ℕ → ℕ
device i none = i
device i (some d) = d

-- DTTOIF, and `fs::inode::recompute`.
unfoldable pub dir_stat : ℕ → Dirent → DirStat
dir_stat dev de = record {
  st_dev = dev;
  st_ino = bit_or de.d_ino (dev * 2 ^ 32 % u64_mod);
  st_mode = de.d_type * 4096;
}

module _ (hash : Str → ℕ) (filler : Filler) where
  open filler use {Buffer, fill}

  -- The set of hashes and the buffer; `none` once the filler has failed.
  abbrev pub Names : Type 0
  Names = Option (List ℕ × Buffer)

  unfoldable pub after_fill : List ℕ → Option Buffer → (List ℕ → Buffer → Names) → Names
  after_fill names none rest = none
  after_fill names (some buf) rest = rest names buf

  -- The loop over the entries of one directory.
  unfoldable pub entries_loop : ℕ → List Dirent → List ℕ → Buffer → Names
  unfolding after_fill is_put dir_stat
  entries_loop dev [] names buf = some (names, buf)
  entries_loop dev (de ∷ des) names buf =
      let h = hash de.d_name in
      if is_put h names
      then entries_loop dev des names buf
      else after_fill (names ++ h ∷ []) (fill buf de.d_name (dir_stat dev de))
          (entries_loop dev des)

  -- One branch; one whose directory cannot be opened is passed over.
  unfoldable pub branch_names : ℕ → Option Dir → List ℕ → Buffer → Names
  unfolding entries_loop device
  branch_names i none names buf = some (names, buf)
  branch_names i (some dir) names buf = entries_loop (device i dir.devid) dir.entries names buf

  unfoldable pub after_branch : Names → (List ℕ → Buffer → Names) → Names
  after_branch none rest = none
  after_branch (some (names, buf)) rest = rest names buf

  -- The loop over the branches, from the branch number `i` on.
  unfoldable pub branches_loop : (Str → Option Dir) → Str → ℕ → Branches → List ℕ → Buffer → Names
  unfolding branch_names after_branch make
  branches_loop opendir dirname i [] names buf = some (names, buf)
  branches_loop opendir dirname i (b ∷ bs) names buf =
      after_branch (branch_names i (opendir (make b.path dirname)) names buf)
        (branches_loop opendir dirname (suc i) bs)

  -- The answer, and the buffer unless the filler failed.
  unfoldable pub answered : Names → ℤ × Option Buffer
  answered none = (neg_of enomem, none)
  answered (some (names, buf)) = (pos 0, some buf)

  -- `FUSE::readdir`
  unfoldable pub readdir : (Str → Option Dir) → Branches → Str → Buffer → ℤ × Option Buffer
  unfolding branches_loop answered
  readdir opendir bs dirname buf = answered (branches_loop opendir dirname 0 bs [] buf)
