-- ===== src/Tests/Data.antt =====
-- A small pool of three branches, and an operating system that logs what it is asked to change.
use mathlib.Core.List.Permᴰ as Permutation
use mergerfs.Base.{ℕ, pos, true, false, some, List, [], ◌∷◌, ◌++◌, Str}
use mergerfs.Branch.{Branch, Branches, Mode}
use mergerfs.Os.{Os}
use mergerfs.Os.Laws.{IsLawful}
use mergerfs.Policy.Types.{View, Rv, success, failure}
use mergerfs.Policy.Kind.{Kind}
use mergerfs.Policy.Table.{codes}
use mergerfs.Fuse.Config.{Config, State}

abbrev pub small : Branch
small = record { mode = Mode.rw; path = codes "/a" }

abbrev pub locked : Branch
locked = record { mode = Mode.ro; path = codes "/b" }

abbrev pub large : Branch
large = record { mode = Mode.rw; path = codes "/c" }

abbrev pub pool : Branches
pool = small ∷ locked ∷ large ∷ []

abbrev pub space_of : Str → ℕ
space_of [] = 0
space_of (c ∷ []) = 0
space_of (c ∷ (d ∷ s)) = d

-- Every path exists, and the space of a branch is the code of its letter.
abbrev pub view : View
view = record {
  lstat = λ p. some (record { mtime = pos 7 });
  statvfs = λ p. some (record { frsize = 1; blocks = 200; bavail = space_of p; flag = 0 });
}

abbrev pub logged : Str → List Str → Rv × List Str
logged p w = (success, w ++ p ∷ [])

abbrev pub toy : Os
toy = record {
  World = List Str;
  FileStat = ℕ;
  mode = λ st. st;
  view = λ w. view;
  random_shuffle = λ w ps. ps;
  stat = λ p w. ((success, 16877), w);
  lgetxattr = λ p n w. (failure 61, w);
  unlink = logged;
  rmdir = logged;
  remove = logged;
  chmod = λ p m. logged p;
  lchown = λ p u g. logged p;
  truncate = λ p n. logged p;
  lutime = λ p t. logged p;
  lremovexattr = λ p n. logged p;
  lsetxattr = λ p n x f. logged p;
  rename = λ p q. logged q;
  link = λ p q. logged q;
  symlink = λ p q. logged q;
  mkdir = λ p m. logged p;
  mknod = λ p m d. logged p;
  copy_attr = λ p q. logged q;
  copy_xattr = λ p q. logged q;
  lchown_check_on_error = λ p st. logged p;
  utime = λ p st. logged p;
}

pub toy-IsLawful : IsLawful toy
toy-IsLawful = record {
  permutes = λ w ps. Permutation.refl ps;
  stat_errno = λ p w. tt;
  mkdir_errno = λ p m w. tt;
  mknod_errno = λ p m d w. tt;
  symlink_errno = λ p q w. tt;
  unlink_errno = λ p w. tt;
  rename_errno = λ p q w. tt;
  link_errno = λ p q w. tt;
}

-- The policies that `Config::Config` sets: epall, epmfs and ff by category.
abbrev pub config : Config
config = record {
  branches = pool;
  minfreespace = 10;
  ignorepponrename = false;
  security_capability = true;
  xattr = 0;
  controlfile = codes "/.mergerfs";
  access = Kind.ff;
  chmod = Kind.epall;
  chown = Kind.epall;
  create = Kind.epmfs;
  getattr = Kind.ff;
  link = Kind.epall;
  mkdir = Kind.epmfs;
  mknod = Kind.epmfs;
  removexattr = Kind.epall;
  rename = Kind.epall;
  rmdir = Kind.epall;
  setxattr = Kind.epall;
  symlink = Kind.epmfs;
  truncate = Kind.epall;
  unlink = Kind.epall;
  utimens = Kind.epall;
}

abbrev pub begin : State toy
begin = record { world = []; open_cache = [] }
