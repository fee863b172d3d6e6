-- ===== src/Settings/ControlFile/Write.antt =====
-- src/fuse_setxattr.cpp: the branches in the control file, and the choice of what an attribute of it
-- sets.
use mergerfs.Base.{ℕ, pos, neg_of, List, [], ◌∷◌, Str, str_eq, if◌then◌else◌}
use mergerfs.Errno.{eexist, einval}
use mergerfs.Strings.{split, c_str}
use mergerfs.Branch.{Branches}
use mergerfs.Branch.Text.{Globbing, erase_begin, erase_end, erase_fnmatch, add_begin, add_end, set}
use mergerfs.Policy.Table.{codes}
use mergerfs.Settings.{Settings}
use mergerfs.Settings.ControlFile.{
  creates, Answer, split_attrval, setxattr_uint64_t, setxattr_time_t, setxattr_bool, setxattr_xattr,
  setxattr_statfs, setxattr_statfsignore, setxattr_controlfile_func_policy,
  setxattr_controlfile_category_policy,
}

-- The FUSE library's access to its own caches, `strtod`, which gives a number and the text from
-- `endptr` on, and `<<` for a `double`.
pub record Timeouts : Type 1 where
  pub Number : Type 0
  pub strtod : Str → Number × Str
  pub Fuse : Type 0
  pub set_attr_timeout : Number → Fuse → Fuse
  pub set_entry_timeout : Number → Fuse → Fuse
  pub set_negative_entry_timeout : Number → Fuse → Fuse
  pub print : Number → Str
  pub get_attr_timeout : Fuse → Number
  pub get_entry_timeout : Fuse → Number
  pub get_negative_entry_timeout : Fuse → Number

-- What the control file can change: the configuration, the timeout of the statvfs cache
-- (`g_timeout`) and the FUSE library's caches.
pub record Control (ts : Timeouts) : Type 0 where
  pub settings : Settings
  pub statfs_timeout : ℕ
  pub fuse : ts.Fuse

module _ (g : Globbing) where
  -- The chain of tests of `setxattr_srcmounts`.
  unfoldable pub instruct : Str → Str → Branches → Answer Branches
  unfolding str_eq add_end add_begin erase_fnmatch erase_begin erase_end set
  instruct instruction values bs =
      if str_eq instruction (codes "+")
      then (pos 0, add_end g values bs)
      else if str_eq instruction (codes "+<")
      then (pos 0, add_begin g values bs)
      else if str_eq instruction (codes "+>")
      then (pos 0, add_end g values bs)
      else if str_eq instruction (codes "-")
      then (pos 0, erase_fnmatch g values bs)
      else if str_eq instruction (codes "-<")
      then (pos 0, erase_begin bs)
      else if str_eq instruction (codes "->")
      then (pos 0, erase_end bs)
      else if str_eq instruction (codes "=")
      then (pos 0, set g values bs)
      else if str_eq instruction []
      then (pos 0, set g values bs)
      else (neg_of einval, bs)

  unfoldable pub setxattr_srcmounts : Str → ℕ → Branches → Answer Branches
  unfolding instruct split_attrval
  setxattr_srcmounts attrval flags bs =
      if creates flags
      then (neg_of eexist, bs)
      else let (instruction, values) = split_attrval attrval in instruct instruction values bs

module _ (ts : Timeouts) where
  -- A member of the configuration that is passed by reference.
  abbrev pub into : {A : Type 0} → (A → Settings) → Answer A → Control ts → Answer (Control ts)
  into put (r, v) c = (r, record c { settings = put v })

  -- `num::to_double` after `strtod`, and `if(rv >= 0)` set it by the FUSE library.
  unfoldable pub set_double :
      (ts.Number → ts.Fuse → ts.Fuse) → ts.Number × Str → Control ts → Answer (Control ts)
  set_double setter (d, []) c = (pos 0, record c { fuse = setter d c.fuse })
  set_double setter (d, x ∷ rest) c = (neg_of einval, c)

  -- `setxattr_controlfile_cache_attr` and its like.
  unfoldable pub setxattr_double :
      (ts.Number → ts.Fuse → ts.Fuse) → Str → ℕ → Control ts → Answer (Control ts)
  unfolding set_double c_str
  setxattr_double setter attrval flags c =
      if creates flags then (neg_of eexist, c) else set_double setter (ts.strtod (c_str attrval)) c

  unfoldable pub setxattr_statfs_timeout : Str → ℕ → Control ts → Answer (Control ts)
  unfolding setxattr_uint64_t
  setxattr_statfs_timeout attrval flags c =
      let (r, timeout) = setxattr_uint64_t attrval flags c.statfs_timeout in
      (r, record c { statfs_timeout = timeout })

module _ (g : Globbing) (ts : Timeouts) where
  -- `case 3`
  unfoldable pub write_member : Str → Str → ℕ → Control ts → Answer (Control ts)
  unfolding str_eq setxattr_srcmounts setxattr_uint64_t setxattr_time_t setxattr_bool setxattr_xattr
      setxattr_statfs setxattr_statfsignore
  write_member name x fl c =
      let s = c.settings in
      if str_eq name (codes "srcmounts")
      then into ts (λ v. record s { branches = v }) (setxattr_srcmounts g x fl s.branches) c
      else if str_eq name (codes "branches")
      then into ts (λ v. record s { branches = v }) (setxattr_srcmounts g x fl s.branches) c
      else if str_eq name (codes "minfreespace")
      then into ts (λ v. record s { minfreespace = v }) (setxattr_uint64_t x fl s.minfreespace) c
      else if str_eq name (codes "moveonenospc")
      then into ts (λ v. record s { moveonenospc = v }) (setxattr_bool x fl s.moveonenospc) c
      else if str_eq name (codes "dropcacheonclose")
      then into ts (λ v. record s { dropcacheonclose = v }) (setxattr_bool x fl s.dropcacheonclose)
          c
      else if str_eq name (codes "symlinkify")
      then into ts (λ v. record s { symlinkify = v }) (setxattr_bool x fl s.symlinkify) c
      else if str_eq name (codes "symlinkify_timeout")
      then into ts (λ v. record s { symlinkify_timeout = v })
          (setxattr_time_t x fl s.symlinkify_timeout) c
      else if str_eq name (codes "ignorepponrename")
      then into ts (λ v. record s { ignorepponrename = v }) (setxattr_bool x fl s.ignorepponrename)
          c
      else if str_eq name (codes "security_capability")
      then into ts (λ v. record s { security_capability = v })
          (setxattr_bool x fl s.security_capability) c
      else if str_eq name (codes "xattr")
      then (setxattr_xattr x fl s.xattr, c)
      else if str_eq name (codes "link_cow")
      then into ts (λ v. record s { link_cow = v }) (setxattr_bool x fl s.link_cow) c
      else if str_eq name (codes "statfs")
      then into ts (λ v. record s { statfs = v }) (setxattr_statfs x fl s.statfs) c
      else if str_eq name (codes "statfs_ignore")
      then into ts (λ v. record s { statfs_ignore = v })
          (setxattr_statfsignore x fl s.statfs_ignore) c
      else if str_eq name (codes "direct_io")
      then into ts (λ v. record s { direct_io = v }) (setxattr_bool x fl s.direct_io) c
      else (neg_of einval, c)

  -- The part of `case 4` that is about caches.
  unfoldable pub write_cache : Str → Str → ℕ → Control ts → Answer (Control ts)
  unfolding str_eq setxattr_uint64_t setxattr_statfs_timeout setxattr_double
  write_cache name x fl c =
      let s = c.settings in
      if str_eq name (codes "open")
      then into ts (λ v. record s { open_timeout = v }) (setxattr_uint64_t x fl s.open_timeout) c
      else if str_eq name (codes "statfs")
      then setxattr_statfs_timeout ts x fl c
      else if str_eq name (codes "attr")
      then setxattr_double ts ts.set_attr_timeout x fl c
      else if str_eq name (codes "entry")
      then setxattr_double ts ts.set_entry_timeout x fl c
      else if str_eq name (codes "negative_entry")
      then setxattr_double ts ts.set_negative_entry_timeout x fl c
      else (neg_of einval, c)

  -- `case 4`
  unfoldable pub write_group : Str → Str → Str → ℕ → Control ts → Answer (Control ts)
  unfolding str_eq setxattr_controlfile_func_policy setxattr_controlfile_category_policy write_cache
  write_group group name x fl c =
      let s = c.settings in
      if str_eq group (codes "category")
      then into ts (λ v. v) (setxattr_controlfile_category_policy name x fl s) c
      else if str_eq group (codes "func")
      then into ts (λ v. v) (setxattr_controlfile_func_policy name x fl s) c
      else if str_eq group (codes "cache")
      then write_cache name x fl c
      else (neg_of einval, c)

  -- `switch(attr.size())`
  unfoldable pub write_parts : List Str → Str → ℕ → Control ts → Answer (Control ts)
  unfolding write_member write_group
  write_parts (user ∷ (mergerfs_ ∷ (name ∷ []))) x fl c = write_member name x fl c
  write_parts (user ∷ (mergerfs_ ∷ (group ∷ (name ∷ [])))) x fl c = write_group group name x fl c
  write_parts _ x fl c = (neg_of einval, c)

  unfoldable pub setxattr_controlfile : Str → Str → ℕ → Control ts → Answer (Control ts)
  unfolding write_parts split
  setxattr_controlfile attrname attrval flags c = write_parts (split attrname b'.') attrval flags c
