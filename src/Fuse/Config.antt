-- ===== src/Fuse/Config.antt =====
-- src/config.hpp: what the handlers read of the configuration, and the state that they change.
use mergerfs.Base.{ℕ, Bool, List, Str}
use mergerfs.Branch.{Branches}
use mergerfs.Os.{Os}
use mergerfs.Policy.Types.{Category, Outcome}
use mergerfs.Policy.Kind.{Kind}
use mergerfs.Policy.Table.{func}
use mergerfs.PolicyCache.{Entries}

pub record Config : Type 0 where
  pub branches : Branches
  pub minfreespace : ℕ
  pub ignorepponrename : Bool
  pub security_capability : Bool
  pub xattr : ℕ
  pub controlfile : Str
  -- the policies by function
  pub access : Kind
  pub chmod : Kind
  pub chown : Kind
  pub create : Kind
  pub getattr : Kind
  pub link : Kind
  pub mkdir : Kind
  pub mknod : Kind
  pub removexattr : Kind
  pub rename : Kind
  pub rmdir : Kind
  pub setxattr : Kind
  pub symlink : Kind
  pub truncate : Kind
  pub unlink : Kind
  pub utimens : Kind

-- The world, and the cache of the `open` policy.
pub record State (os : Os) : Type 0 where
  pub world : os.World
  pub open_cache : Entries

-- A policy that is called now: `Policy::Func::Base`, with its category fixed.
module _ (os : Os) where
  unfoldable pub run_policy : Category → Kind → Config → Str → List Str → os.World → Outcome
  unfolding func
  run_policy cat k cfg fusepath paths w =
      func (os.random_shuffle w) (os.view w) k cat cfg.branches fusepath cfg.minfreespace paths
