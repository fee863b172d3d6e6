-- ===== src/Settings/ControlFile.antt =====
-- src/fuse_setxattr.cpp: the attributes of the control file, through which the configuration is
-- changed while the program runs. C's `strtod` and the setters of the FUSE library are parameters.
pub mod Write
pub mod Read
pub mod Kept
pub mod Spared
pub mod RoundTrip
pub mod Delivery
pub mod Laws
use mergerfs.Base.{
  ℕ, ◌%◌, ℤ, pos, neg_of, Bool, true, false, [], ◌∷◌, Str, str_eq, none, some, ◌==◌, if◌then◌else◌,
}
use mergerfs.Errno.{eexist, einval}
use mergerfs.Numbers.{to_uint64_t, to_time_t}
use mergerfs.Policy.Types.{Rv, success, failure}
use mergerfs.Policy.Table.{codes}
use mergerfs.Settings.{Settings, StatFs, StatFsIgnore, set_func_policy, set_category_policy}

-- XATTR_CREATE is the lowest bit.
abbrev pub creates : ℕ → Bool
creates flags = flags % 2 == 1

abbrev pub slash : ℕ
slash = b'/'

-- `split_attrval`: what stands before the first slash, and what stands from there on.
unfoldable pub split_attrval : Str → Str × Str
split_attrval [] = ([], [])
split_attrval (c ∷ s) =
    let (instruction, values) = split_attrval s in
    if c == slash then ([], c ∷ s) else (c ∷ instruction, values)

-- An answer in the handlers' form, and the value that the function was given by reference.
abbrev pub Answer : Type 0 → Type 0
Answer A = ℤ × A

unfoldable pub setxattr_uint64_t : Str → ℕ → ℕ → Answer ℕ
unfolding to_uint64_t
setxattr_uint64_t attrval flags uint =
    if creates flags
    then (neg_of eexist, uint)
    else elim (to_uint64_t attrval) [ none ↦ (neg_of einval, uint) | some n ↦ (pos 0, n) ]

unfoldable pub setxattr_time_t : Str → ℕ → ℕ → Answer ℕ
unfolding to_time_t
setxattr_time_t attrval flags time =
    if creates flags
    then (neg_of eexist, time)
    else elim (to_time_t attrval) [ none ↦ (neg_of einval, time) | some n ↦ (pos 0, n) ]

unfoldable pub setxattr_bool : Str → ℕ → Bool → Answer Bool
unfolding str_eq
setxattr_bool attrval flags value =
    if creates flags
    then (neg_of eexist, value)
    else if str_eq attrval (codes "false")
    then (pos 0, false)
    else if str_eq attrval (codes "true")
    then (pos 0, true)
    else (neg_of einval, value)

-- `setxattr_xattr` is given the number by value: what it assigns is lost.
unfoldable pub setxattr_xattr : Str → ℕ → ℕ → ℤ
unfolding str_eq
setxattr_xattr attrval flags xattr =
    if creates flags
    then neg_of eexist
    else if str_eq attrval (codes "passthrough")
    then pos 0
    else if str_eq attrval (codes "noattr")
    then pos 0
    else if str_eq attrval (codes "nosys")
    then pos 0
    else neg_of einval

unfoldable pub setxattr_statfs : Str → ℕ → StatFs → Answer StatFs
unfolding str_eq
setxattr_statfs attrval flags enum_ =
    if creates flags
    then (neg_of eexist, enum_)
    else if str_eq attrval (codes "base")
    then (pos 0, StatFs.base)
    else if str_eq attrval (codes "full")
    then (pos 0, StatFs.full)
    else (neg_of einval, enum_)

unfoldable pub setxattr_statfsignore : Str → ℕ → StatFsIgnore → Answer StatFsIgnore
unfolding str_eq
setxattr_statfsignore attrval flags enum_ =
    if creates flags
    then (neg_of eexist, enum_)
    else if str_eq attrval (codes "none")
    then (pos 0, StatFsIgnore.none)
    else if str_eq attrval (codes "ro")
    then (pos 0, StatFsIgnore.ro)
    else if str_eq attrval (codes "nc")
    then (pos 0, StatFsIgnore.nc)
    else (neg_of einval, enum_)

-- `if(rv == -1) return -errno;`
abbrev pub answer_of {ℓ} : {A : Type ℓ} → Rv × A → ℤ × A
answer_of (success, s) = (pos 0, s)
answer_of (failure e, s) = (neg_of e, s)

-- `open_cache.clear()`
abbrev pub clear_if : Bool → Settings → Settings
clear_if b s = if b then record s { open_cache = [] } else s

unfoldable pub setxattr_controlfile_func_policy : Str → Str → ℕ → Settings → Answer Settings
unfolding str_eq set_func_policy
setxattr_controlfile_func_policy funcname attrval flags s =
    if creates flags
    then (neg_of eexist, s)
    else answer_of (set_func_policy funcname attrval (clear_if (str_eq funcname (codes "open")) s))

unfoldable pub setxattr_controlfile_category_policy : Str → Str → ℕ → Settings → Answer Settings
unfolding str_eq set_category_policy
setxattr_controlfile_category_policy categoryname attrval flags s =
    if creates flags
    then (neg_of eexist, s)
    else answer_of (
        set_category_policy categoryname attrval
          (clear_if (str_eq categoryname (codes "search")) s))
