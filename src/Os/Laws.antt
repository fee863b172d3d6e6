-- ===== src/Os/Laws.antt =====
-- What is assumed of the operating system: a call that fails sets a positive `errno`, and
-- `std::random_shuffle` permutes.
use mathlib.Core.List.{Permᴰ}
use mergerfs.Base.{ℕ, List, Str}
use mergerfs.Os.{Os, SetsErrno}

pub record IsLawful (os : Os) : Type 0 where
  pub permutes : (w : os.World) (ps : List Str) → Permᴰ (os.random_shuffle w ps) ps
  pub stat_errno : (p : Str) (w : os.World) → SetsErrno (os.stat p w).0.0
  pub mkdir_errno : (p : Str) (m : ℕ) (w : os.World) → SetsErrno (os.mkdir p m w).0
  pub mknod_errno : (p : Str) (m d : ℕ) (w : os.World) → SetsErrno (os.mknod p m d w).0
  pub symlink_errno : (p q : Str) (w : os.World) → SetsErrno (os.symlink p q w).0
  pub unlink_errno : (p : Str) (w : os.World) → SetsErrno (os.unlink p w).0
  pub rename_errno : (p q : Str) (w : os.World) → SetsErrno (os.rename p q w).0
  pub link_errno : (p q : Str) (w : os.World) → SetsErrno (os.link p q w).0
