-- ===== src/Settings/ControlFile/Read.antt =====
-- src/fuse_getxattr.cpp: the attributes of the control file, as they are read.
use mergerfs.Base.{
  ℕ, ℤ, pos, neg_of, Bool, true, false, ◌&&◌, List, [], ◌∷◌, map, Str, str_eq, length, Option, none,
  some, ◌==◌, ltb, if◌then◌else◌,
}
use mergerfs.Errno.{enoattr, enosys, erange}
use mergerfs.Strings.{split, join}
use mergerfs.Numbers.{decimal}
use mergerfs.Branch.Text.{to_string}
use mergerfs.Policy.Types.{Category}
use mergerfs.Policy.Kind.{Kind}
use mergerfs.Policy.Table.{codes, name, policies}
use mergerfs.Settings.{Settings, StatFs, StatFsIgnore}
use mergerfs.Settings.Func.{
  FuseFunc, fusefuncs, category_of, category_number, find_func, find_category,
}
use mergerfs.Settings.ControlFile.Write.{Timeouts, Control}

-- What the process is: the version that the build writes down, and its number.
pub record Process : Type 0 where
  pub version : Str
  pub pid : ℕ

unfoldable pub bool_text : Bool → Str
bool_text true = codes "true"
bool_text false = codes "false"

unfoldable pub errno_text : ℕ → Str
errno_text n =
    if n == 0
    then codes "passthrough"
    else if n == enoattr
    then codes "noattr"
    else if n == enosys
    then codes "nosys"
    else codes "ERROR"

unfoldable pub statfs_text : StatFs → Str
statfs_text StatFs.base = codes "base"
statfs_text StatFs.full = codes "full"

unfoldable pub statfsignore_text : StatFsIgnore → Str
statfsignore_text StatFsIgnore.none = codes "none"
statfsignore_text StatFsIgnore.ro = codes "ro"
statfsignore_text StatFsIgnore.nc = codes "nc"

-- `<` on `std::string`.
unfoldable pub str_lt : Str → Str → Bool
str_lt s [] = false
str_lt [] (d ∷ t) = true
str_lt (c ∷ s) (d ∷ t) = if c == d then str_lt s t else ltb c d

-- `std::sort`
unfoldable pub insert_sorted : Str → List Str → List Str
unfolding str_lt
insert_sorted s [] = s ∷ []
insert_sorted s (t ∷ ts) = if str_lt t s then t ∷ insert_sorted s ts else s ∷ (t ∷ ts)

unfoldable pub sorted : List Str → List Str
unfolding insert_sorted
sorted [] = []
sorted (s ∷ ss) = insert_sorted s (sorted ss)

-- `std::unique`: of equal neighbours the first is kept.
unfoldable pub unique_after : Str → List Str → List Str
unfolding str_eq
unique_after s [] = []
unique_after s (t ∷ ts) = if str_eq s t then unique_after s ts else t ∷ unique_after t ts

unfoldable pub unique : List Str → List Str
unfolding unique_after
unique [] = []
unique (s ∷ ss) = s ∷ unique_after s ss

-- The loop of `getxattr_controlfile_category_policy`.
unfoldable pub policies_of : Category → (FuseFunc → Kind) → List FuseFunc → List Str
unfolding name category_of category_number
policies_of cat p [] = []
policies_of cat p (f ∷ fs) =
    let rest = policies_of cat p fs in
    if category_number (category_of f) == category_number cat then name (p f) ∷ rest else rest

-- The text that stays empty for a category or a function that is not found.
unfoldable pub category_policy_text : Category → Settings → Str
unfolding policies_of sorted unique
category_policy_text Category.invalid s = []
category_policy_text cat s = join (unique (sorted (policies_of cat s.policies fusefuncs))) b','

unfoldable pub func_policy_text : FuseFunc → Settings → Str
unfolding name
func_policy_text FuseFunc.invalid s = []
func_policy_text f s = name (s.policies f)

-- `getxattr_controlfile_policies`
unfoldable pub policies_text : Str
unfolding name
policies_text = join (map name policies) b','

unfoldable pub version_text : Str → Str
version_text [] = codes "unknown_possible_problem_with_build"
version_text (c ∷ s) = c ∷ s

-- `case 3`
unfoldable pub read_member : Process → Str → Settings → Str
unfolding str_eq to_string decimal bool_text errno_text statfs_text statfsignore_text
read_member process name s =
    if str_eq name (codes "srcmounts")
    then to_string false s.branches
    else if str_eq name (codes "branches")
    then to_string true s.branches
    else if str_eq name (codes "minfreespace")
    then decimal s.minfreespace
    else if str_eq name (codes "moveonenospc")
    then bool_text s.moveonenospc
    else if str_eq name (codes "dropcacheonclose")
    then bool_text s.dropcacheonclose
    else if str_eq name (codes "symlinkify")
    then bool_text s.symlinkify
    else if str_eq name (codes "symlinkify_timeout")
    then decimal s.symlinkify_timeout
    else if str_eq name (codes "nullrw")
    then bool_text s.nullrw
    else if str_eq name (codes "ignorepponrename")
    then bool_text s.ignorepponrename
    else if str_eq name (codes "security_capability")
    then bool_text s.security_capability
    else if str_eq name (codes "xattr")
    then errno_text s.xattr
    else if str_eq name (codes "link_cow")
    then bool_text s.link_cow
    else if str_eq name (codes "statfs")
    then statfs_text s.statfs
    else if str_eq name (codes "statfs_ignore")
    then statfsignore_text s.statfs_ignore
    else if str_eq name (codes "policies")
    then policies_text
    else if str_eq name (codes "version")
    then version_text process.version
    else if str_eq name (codes "pid")
    then decimal process.pid
    else if str_eq name (codes "direct_io")
    then bool_text s.direct_io
    else []

-- The part of `case 4` that is about caches.
unfoldable pub read_cache : (ts : Timeouts) → Str → Control ts → Str
unfolding str_eq decimal
read_cache ts name c =
    if str_eq name (codes "open")
    then decimal c.settings.open_timeout
    else if str_eq name (codes "statfs")
    then decimal c.statfs_timeout
    else if str_eq name (codes "attr")
    then ts.print (ts.get_attr_timeout c.fuse)
    else if str_eq name (codes "entry")
    then ts.print (ts.get_entry_timeout c.fuse)
    else if str_eq name (codes "negative_entry")
    then ts.print (ts.get_negative_entry_timeout c.fuse)
    else []

-- `case 4`
unfoldable pub read_group : (ts : Timeouts) → Str → Str → Control ts → Str
unfolding str_eq category_policy_text func_policy_text read_cache
read_group ts group name c =
    if str_eq group (codes "category")
    then category_policy_text (find_category name) c.settings
    else if str_eq group (codes "func")
    then func_policy_text (find_func name) c.settings
    else if str_eq group (codes "cache")
    then read_cache ts name c
    else []

-- `attrvalue`, for the parts of the attribute's name. With fewer than two parts the C++ reads
-- beyond the vector; here the text is empty then.
unfoldable pub read_parts : (ts : Timeouts) → Process → List Str → Control ts → Str
unfolding str_eq read_member read_group
read_parts ts process (user ∷ (mergerfs_ ∷ rest)) c =
    if str_eq user (codes "user") && str_eq mergerfs_ (codes "mergerfs") then found rest else []
  where
    found : List Str → Str
    found (name ∷ []) = read_member process name c.settings
    found (group ∷ (name ∷ [])) = read_group ts group name c
    found _ = []
read_parts ts process _ c = []

-- The answer, and what is copied into the buffer of `count` bytes.
unfoldable pub deliver : Str → ℕ → ℤ × Option Str
deliver [] count = (neg_of enoattr, none)
deliver (x ∷ xs) count =
    if count == 0
    then (pos (length (x ∷ xs)), none)
    else if ltb count (length (x ∷ xs))
    then (neg_of erange, none)
    else (pos (length (x ∷ xs)), some (x ∷ xs))

unfoldable pub getxattr_controlfile :
    (ts : Timeouts) → Process → Str → ℕ → Control ts → ℤ × Option Str
unfolding read_parts deliver split
getxattr_controlfile ts process attrname count c =
    deliver (read_parts ts process (split attrname b'.') c) count
