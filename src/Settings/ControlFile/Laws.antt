-- ===== src/Settings/ControlFile/Laws.antt =====
-- src/fuse_setxattr.cpp: what a write to the control file leaves as it was.
use mergerfs.Base.{arith, ℕ, neg_of, refl, List, [], ◌∷◌, Str}
use mergerfs.Errno.{einval}
use mergerfs.Strings.{split}
use mergerfs.Branch.Text.{Globbing}
use mergerfs.Settings.ControlFile.{
  setxattr_uint64_t, setxattr_time_t, setxattr_xattr, setxattr_statfs, setxattr_statfsignore,
}
use mergerfs.Settings.ControlFile.Write.{
  Timeouts, Control, setxattr_srcmounts, write_member, write_cache, write_group, write_parts,
  setxattr_controlfile,
}
use mergerfs.Settings.ControlFile.Kept.{
  setxattr_uint64_t-Kept, setxattr_time_t-Kept, setxattr_statfs-Kept, setxattr_statfsignore-Kept,
  setxattr_srcmounts-Kept,
}
use mergerfs.Settings.ControlFile.Spared.{
  IsSpared, into-IsSpared, same-IsSpared, setxattr_double-IsSpared,
  setxattr_statfs_timeout-IsSpared, func_policy-IsSpared, category_policy-IsSpared, bool-IsSpared,
}

module _ (g : Globbing) (ts : Timeouts) where
  write_cache-IsSpared :
      (name x : Str) (fl : ℕ) (c : Control ts) → IsSpared ts c (write_cache g ts name x fl c)
  unfolding write_cache
  write_cache-IsSpared name x fl c = ground (
    arith,
    into-IsSpared ts (λ v. record c.settings { open_timeout = v }) c.settings.open_timeout
        (setxattr_uint64_t x fl c.settings.open_timeout) c refl (λ v. refl)
        (setxattr_uint64_t-Kept x fl c.settings.open_timeout),
    setxattr_statfs_timeout-IsSpared ts x fl c,
    setxattr_double-IsSpared ts ts.set_attr_timeout x fl c,
    setxattr_double-IsSpared ts ts.set_entry_timeout x fl c,
    setxattr_double-IsSpared ts ts.set_negative_entry_timeout x fl c,
    same-IsSpared ts c (neg_of einval),
  )

  write_member-IsSpared :
      (name x : Str) (fl : ℕ) (c : Control ts) → IsSpared ts c (write_member g ts name x fl c)
  unfolding write_member
  write_member-IsSpared name x fl c = ground (
    arith,
    into-IsSpared ts (λ v. record c.settings { branches = v }) c.settings.branches
        (setxattr_srcmounts g x fl c.settings.branches) c refl (λ v. refl)
        (setxattr_srcmounts-Kept g x fl c.settings.branches),
    into-IsSpared ts (λ v. record c.settings { minfreespace = v }) c.settings.minfreespace
        (setxattr_uint64_t x fl c.settings.minfreespace) c refl (λ v. refl)
        (setxattr_uint64_t-Kept x fl c.settings.minfreespace),
    bool-IsSpared ts (λ v. record c.settings { moveonenospc = v }) c.settings.moveonenospc x fl c
        refl (λ v. refl),
    bool-IsSpared ts (λ v. record c.settings { dropcacheonclose = v }) c.settings.dropcacheonclose x
        fl c refl (λ v. refl),
    bool-IsSpared ts (λ v. record c.settings { symlinkify = v }) c.settings.symlinkify x fl c refl
        (λ v. refl),
    bool-IsSpared ts (λ v. record c.settings { ignorepponrename = v }) c.settings.ignorepponrename x
        fl c refl (λ v. refl),
    bool-IsSpared ts (λ v. record c.settings { security_capability = v })
        c.settings.security_capability x fl c refl (λ v. refl),
    bool-IsSpared ts (λ v. record c.settings { link_cow = v }) c.settings.link_cow x fl c refl
        (λ v. refl),
    bool-IsSpared ts (λ v. record c.settings { direct_io = v }) c.settings.direct_io x fl c refl
        (λ v. refl),
    into-IsSpared ts (λ v. record c.settings { symlinkify_timeout = v })
        c.settings.symlinkify_timeout (setxattr_time_t x fl c.settings.symlinkify_timeout) c refl
        (λ v. refl) (setxattr_time_t-Kept x fl c.settings.symlinkify_timeout),
    into-IsSpared ts (λ v. record c.settings { statfs = v }) c.settings.statfs
        (setxattr_statfs x fl c.settings.statfs) c refl (λ v. refl)
        (setxattr_statfs-Kept x fl c.settings.statfs),
    into-IsSpared ts (λ v. record c.settings { statfs_ignore = v }) c.settings.statfs_ignore
        (setxattr_statfsignore x fl c.settings.statfs_ignore) c refl (λ v. refl)
        (setxattr_statfsignore-Kept x fl c.settings.statfs_ignore),
    same-IsSpared ts c (setxattr_xattr x fl c.settings.xattr),
    same-IsSpared ts c (neg_of einval),
  )

  write_group-IsSpared :
      (group name x : Str) (fl : ℕ) (c : Control ts)
      → IsSpared ts c (write_group g ts group name x fl c)
  unfolding write_group
  write_group-IsSpared group name x fl c = ground (
    arith,
    category_policy-IsSpared ts name x fl c,
    func_policy-IsSpared ts name x fl c,
    write_cache-IsSpared name x fl c,
    same-IsSpared ts c (neg_of einval),
  )

  write_parts-IsSpared :
      (parts : List Str) (x : Str) (fl : ℕ) (c : Control ts)
      → IsSpared ts c (write_parts g ts parts x fl c)
  unfolding write_parts
  write_parts-IsSpared (user ∷ (mergerfs_ ∷ (name ∷ []))) x fl c = write_member-IsSpared name x fl c
  write_parts-IsSpared (user ∷ (mergerfs_ ∷ (group ∷ (name ∷ [])))) x fl c =
      write_group-IsSpared group name x fl c
  write_parts-IsSpared _ x fl c = same-IsSpared ts c (neg_of einval)

  -- A write to the control file that does not answer 0 changes nothing but, at most, the entries of
  -- the cache of `open`. Whatever it answers, no write changes the member `xattr`.
  pub setxattr_controlfile-IsSpared :
      (attrname attrval : Str) (flags : ℕ) (c : Control ts)
      → IsSpared ts c (setxattr_controlfile g ts attrname attrval flags c)
  unfolding setxattr_controlfile
  setxattr_controlfile-IsSpared attrname attrval flags c =
      write_parts-IsSpared (split attrname b'.') attrval flags c
