-- ===== src/Settings.antt =====
-- src/config.hpp, src/config.cpp, src/fusefunc.cpp and src/category.cpp: the configuration, and how
-- a policy is set for a function or for a category of functions. The lock of the branches is not
-- modelled.
pub mod Func
pub mod ControlFile
pub mod Laws
use mergerfs.Base.{ℕ, ◌-◌, ◌^◌, Bool, true, false, List, [], ◌∷◌, Str, ◌==◌, if◌then◌else◌}
use mergerfs.Errno.{einval, enoattr}
use mergerfs.Branch.{Branches}
use mergerfs.Policy.Types.{Category, Rv, success, failure}
use mergerfs.Policy.Kind.{Kind}
use mergerfs.Policy.Table.{find, codes}
use mergerfs.PolicyCache.{Entries}
use mergerfs.Fuse.Config.{Config}
use mergerfs.Settings.Func.{
  FuseFunc, fusefuncs, category_of, find_func, find_category, func_number, category_number,
}

-- `Config::StatFS::Enum`
pub data StatFs : Type 0 where
  base full : StatFs

-- `Config::StatFSIgnore::Enum`
pub data StatFsIgnore : Type 0 where
  none ro nc : StatFsIgnore

-- `Config`, with what the cache of open holds and its timeout.
pub record Settings : Type 0 where
  pub destmount : Str
  pub branches : Branches
  pub minfreespace : ℕ
  pub moveonenospc : Bool
  pub direct_io : Bool
  pub dropcacheonclose : Bool
  pub symlinkify : Bool
  pub symlinkify_timeout : ℕ
  pub nullrw : Bool
  pub ignorepponrename : Bool
  pub security_capability : Bool
  pub link_cow : Bool
  pub xattr : ℕ
  pub statfs : StatFs
  pub statfs_ignore : StatFsIgnore
  pub policies : FuseFunc → Kind
  pub open_cache : Entries
  pub open_timeout : ℕ
  pub controlfile : Str

-- `policies[func] = policy`
unfoldable pub assign : FuseFunc → Kind → (FuseFunc → Kind) → FuseFunc → Kind
unfolding func_number
assign f k policies g = if func_number f == func_number g then k else policies g

-- The rest of `set_func_policy`, with the policy found.
unfoldable pub assign_func : FuseFunc → Kind → Settings → Rv × Settings
unfolding assign
assign_func f Kind.invalid s = (failure einval, s)
assign_func f k s = (success, record s { policies = assign f k s.policies })

-- The rest of it, with the function found.
unfoldable pub set_found_func : FuseFunc → Str → Settings → Rv × Settings
unfolding assign_func
set_found_func FuseFunc.invalid policy s = (failure enoattr, s)
set_found_func f policy s = assign_func f (find policy) s

-- `Config::set_func_policy`
unfoldable pub set_func_policy : Str → Str → Settings → Rv × Settings
unfolding set_found_func
set_func_policy fusefunc policy s = set_found_func (find_func fusefunc) policy s

-- The loop of `set_category_policy`.
unfoldable pub assign_all : Category → Kind → List FuseFunc → (FuseFunc → Kind) → FuseFunc → Kind
unfolding assign category_of category_number
assign_all cat k [] policies = policies
assign_all cat k (f ∷ fs) policies = assign_all cat k fs (
    if category_number (category_of f) == category_number cat
    then assign f k policies
    else policies)

unfoldable pub assign_category : Category → Kind → Settings → Rv × Settings
unfolding assign_all
assign_category cat Kind.invalid s = (failure einval, s)
assign_category cat k s = (success, record s { policies = assign_all cat k fusefuncs s.policies })

unfoldable pub set_found_category : Category → Str → Settings → Rv × Settings
unfolding assign_category
set_found_category Category.invalid policy s = (failure enoattr, s)
set_found_category cat policy s = assign_category cat (find policy) s

-- `Config::set_category_policy`
unfoldable pub set_category_policy : Str → Str → Settings → Rv × Settings
unfolding set_found_category
set_category_policy category policy s = set_found_category (find_category category) policy s

-- The members that `Config::Config` initialises; a policy starts as a null pointer, which the body
-- replaces for every function.
abbrev pub members : Settings
members = record {
  destmount = [];
  branches = [];
  minfreespace = 2 ^ 32 - 1;
  moveonenospc = false;
  direct_io = false;
  dropcacheonclose = false;
  symlinkify = false;
  symlinkify_timeout = 3600;
  nullrw = false;
  ignorepponrename = false;
  security_capability = true;
  link_cow = false;
  xattr = 0;
  statfs = StatFs.base;
  statfs_ignore = StatFsIgnore.none;
  policies = λ f. Kind.invalid;
  open_cache = [];
  open_timeout = 0;
  controlfile = codes "/.mergerfs";
}

-- `Config::Config`
unfoldable pub initial : Settings
unfolding set_category_policy
initial =
    (set_category_policy (codes "search") (codes "ff")
      (set_category_policy (codes "create") (codes "epmfs")
        (set_category_policy (codes "action") (codes "epall") members).1).1).1

-- What the handlers read.
unfoldable pub handler_config : Settings → Config
handler_config s = record {
  branches = s.branches;
  minfreespace = s.minfreespace;
  ignorepponrename = s.ignorepponrename;
  security_capability = s.security_capability;
  xattr = s.xattr;
  controlfile = s.controlfile;
  access = s.policies FuseFunc.access;
  chmod = s.policies FuseFunc.chmod;
  chown = s.policies FuseFunc.chown;
  create = s.policies FuseFunc.create;
  getattr = s.policies FuseFunc.getattr;
  link = s.policies FuseFunc.link;
  mkdir = s.policies FuseFunc.mkdir;
  mknod = s.policies FuseFunc.mknod;
  removexattr = s.policies FuseFunc.removexattr;
  rename = s.policies FuseFunc.rename;
  rmdir = s.policies FuseFunc.rmdir;
  setxattr = s.policies FuseFunc.setxattr;
  symlink = s.policies FuseFunc.symlink;
  truncate = s.policies FuseFunc.truncate;
  unlink = s.policies FuseFunc.unlink;
  utimens = s.policies FuseFunc.utimens;
}
