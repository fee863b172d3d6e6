-- ===== src/Settings/ControlFile/RoundTrip.antt =====
-- src/fuse_getxattr.cpp and src/fuse_setxattr.cpp: what is read of the control file and written back.
use mergerfs.Base.{
  ℕ, ℤ, pos, ◌≡◌, refl, ap, sym, ◌∙◌, Bool, true, false, List, [], ◌∷◌, ◌++◌, append_assoc, subst,
  Any, Str, some, All, leb, inl, inr, arith,
}
use mergerfs.Strings.{split}
use mergerfs.Numbers.{decimal, llong_max}
use mergerfs.Numbers.Laws.{to_uint64_t-decimal_small, to_time_t-decimal}
use mergerfs.Branch.{Branches}
use mergerfs.Branch.Text.{Globbing, colon, mode_text, entries, chop, to_string, set}
use mergerfs.Branch.Text.RoundTrip.{IsStored, set-to_string}
use mergerfs.Policy.Table.{codes}
use mergerfs.Settings.{Settings, StatFs, StatFsIgnore}
use mergerfs.Settings.ControlFile.{
  slash, Answer, split_attrval, setxattr_uint64_t, setxattr_time_t, setxattr_bool, setxattr_statfs,
  setxattr_statfsignore,
}
use mergerfs.Settings.ControlFile.Write.{
  Timeouts, Control, instruct, setxattr_srcmounts, into, write_member, write_cache, write_group,
  write_parts, setxattr_controlfile, setxattr_statfs_timeout,
}
use mergerfs.Settings.ControlFile.Read.{
  Process, bool_text, statfs_text, statfsignore_text, read_member, read_cache, read_group,
  read_parts, deliver, getxattr_controlfile,
}

bool-restored : (b : Bool) → setxattr_bool (bool_text b) 0 b ≡ (pos 0, b)
unfolding setxattr_bool bool_text
bool-restored true = refl
bool-restored false = refl

statfs-restored : (v : StatFs) → setxattr_statfs (statfs_text v) 0 v ≡ (pos 0, v)
unfolding setxattr_statfs statfs_text
statfs-restored StatFs.base = refl
statfs-restored StatFs.full = refl

statfsignore-restored :
    (v : StatFsIgnore) → setxattr_statfsignore (statfsignore_text v) 0 v ≡ (pos 0, v)
unfolding setxattr_statfsignore statfsignore_text
statfsignore-restored StatFsIgnore.none = refl
statfsignore-restored StatFsIgnore.ro = refl
statfsignore-restored StatFsIgnore.nc = refl

uint64_t-restored :
    (n : ℕ) → leb n llong_max ≡ true → setxattr_uint64_t (decimal n) 0 n ≡ (pos 0, n)
unfolding setxattr_uint64_t
uint64_t-restored n h = rw (to_uint64_t-decimal_small n h) refl

time_t-restored : (n : ℕ) → leb n llong_max ≡ true → setxattr_time_t (decimal n) 0 n ≡ (pos 0, n)
unfolding setxattr_time_t
time_t-restored n h = rw (to_time_t-decimal n h) refl

-- The first branch's path starts with a slash.
abbrev pub IsRooted : Branches → Type 0
IsRooted [] = ⊥
IsRooted (b ∷ bs) = (p : Str) × (b.path ≡ slash ∷ p)

chop-starts : (c d : ℕ) (s t : Str) → chop (c ∷ (s ++ d ∷ t)) ≡ c ∷ chop (s ++ d ∷ t)
unfolding chop
chop-starts c d [] t = refl
chop-starts c d (x ∷ s) t = refl

to_string-starts : (bs : Branches) → IsRooted bs → (t : Str) × (to_string true bs ≡ slash ∷ t)
unfolding to_string entries
to_string-starts [] h = elim h [ ]
to_string-starts (b ∷ bs) (p, e) =
    let m = mode_text true b.mode in
    (
      chop ((p ++ m) ++ colon ∷ entries true bs),
      rw (e) (
          ap (λ (s : Str). chop (slash ∷ s)) (sym (append_assoc p m (colon ∷ entries true bs)))
          ∙ chop-starts slash colon (p ++ m) (entries true bs)),
    )

set-starts :
    (g : Globbing) (x t : Str) (bs : Branches)
    → x ≡ slash ∷ t
    → setxattr_srcmounts g x 0 bs ≡ (pos 0, set g x bs)
unfolding setxattr_srcmounts instruct split_attrval
set-starts g x t bs e = rw e refl

branches-restored :
    (g : Globbing) (bs : Branches)
    → IsRooted bs
    → All (IsStored g) bs
    → setxattr_srcmounts g (to_string true bs) 0 bs ≡ (pos 0, bs)
branches-restored g bs rooted stored =
    set-starts g _ (to_string-starts bs rooted).0 bs (to_string-starts bs rooted).1
    ∙ ap (λ (r : Branches). (pos 0, r)) (set-to_string g bs bs stored)

-- The attributes that this is about: every member that can be written, but for `srcmounts`, which
-- shows no modes, and the timeout of the cache of `open` and of the statvfs cache.
abbrev pub attributes : List Str
attributes =
    codes "user.mergerfs.branches"
    ∷ codes "user.mergerfs.minfreespace"
    ∷ codes "user.mergerfs.moveonenospc"
    ∷ codes "user.mergerfs.dropcacheonclose"
    ∷ codes "user.mergerfs.symlinkify"
    ∷ codes "user.mergerfs.symlinkify_timeout"
    ∷ codes "user.mergerfs.ignorepponrename"
    ∷ codes "user.mergerfs.security_capability"
    ∷ codes "user.mergerfs.link_cow"
    ∷ codes "user.mergerfs.statfs"
    ∷ codes "user.mergerfs.statfs_ignore"
    ∷ codes "user.mergerfs.direct_io"
    ∷ codes "user.mergerfs.cache.open"
    ∷ codes "user.mergerfs.cache.statfs"
    ∷ []

module _ (g : Globbing) (ts : Timeouts) (process : Process) where
  -- The text that is read is accepted, and changes nothing.
  abbrev pub IsRestored : Control ts → Str → Type 0
  IsRestored c attrname =
      setxattr_controlfile g ts attrname (read_parts ts process (split attrname b'.') c) 0 c
      ≡ (pos 0, c)

  -- The branches have the form in which the program keeps them, and the numbers are at most
  -- 2^63 - 1.
  abbrev pub IsPlain : Control ts → Type 0
  IsPlain c =
      IsRooted c.settings.branches
      × All (IsStored g) c.settings.branches
      × (leb c.settings.minfreespace llong_max ≡ true)
      × (leb c.settings.symlinkify_timeout llong_max ≡ true)
      × (leb c.settings.open_timeout llong_max ≡ true)
      × (leb c.statfs_timeout llong_max ≡ true)

  restored :
      {A : Type 0} (put : A → Settings) (old : A) (res : Answer A) (c : Control ts)
      → put old ≡ c.settings
      → res ≡ (pos 0, old)
      → into ts put res c ≡ (pos 0, c)
  restored put old res c same h =
      rw h (ap (λ (s : Settings). (pos 0, record c { settings = s })) same)

  attributes-IsRestored : (c : Control ts) → IsPlain c → All (IsRestored c) attributes
  unfolding setxattr_controlfile write_parts write_member write_group write_cache read_parts
      read_member read_group read_cache split setxattr_statfs_timeout
  attributes-IsRestored c (rooted, stored, n0, n1, n2, n3) =
      let s = c.settings in
      (
        restored (λ v. record s { branches = v }) s.branches _ c refl
            (branches-restored g s.branches rooted stored),
        (
          restored (λ v. record s { minfreespace = v }) s.minfreespace _ c refl
              (uint64_t-restored _ n0),
          (
            restored (λ v. record s { moveonenospc = v }) s.moveonenospc _ c refl (bool-restored _),
            (
              restored (λ v. record s { dropcacheonclose = v }) s.dropcacheonclose _ c refl
                  (bool-restored _),
              (
                restored (λ v. record s { symlinkify = v }) s.symlinkify _ c refl (bool-restored _),
                (
                  restored (λ v. record s { symlinkify_timeout = v }) s.symlinkify_timeout _ c refl
                      (time_t-restored _ n1),
                  (
                    restored (λ v. record s { ignorepponrename = v }) s.ignorepponrename _ c refl
                        (bool-restored _),
                    (
                      restored (λ v. record s { security_capability = v }) s.security_capability _ c
                          refl (bool-restored _),
                      (
                        restored (λ v. record s { link_cow = v }) s.link_cow _ c refl
                            (bool-restored _),
                        (
                          restored (λ v. record s { statfs = v }) s.statfs _ c refl
                              (statfs-restored _),
                          (
                            restored (λ v. record s { statfs_ignore = v }) s.statfs_ignore _ c refl
                                (statfsignore-restored _),
                            (
                              restored (λ v. record s { direct_io = v }) s.direct_io _ c refl
                                  (bool-restored _),
                              (
                                restored (λ v. record s { open_timeout = v }) s.open_timeout _ c
                                    refl (uint64_t-restored _ n2),
                                (
                                  (ap (λ (r : Answer ℕ). (r.0, record c { statfs_timeout = r.1 }))
                                      (uint64_t-restored c.statfs_timeout n3)),
                                  tt,
                                ),
                              ),
                            ),
                          ),
                        ),
                      ),
                    ),
                  ),
                ),
              ),
            ),
          ),
        ),
      )

deliver-some : (t v : Str) (count : ℕ) (n : ℤ) → deliver t count ≡ (n, some v) → t ≡ v
unfolding deliver
deliver-some [] v count n h = absurd (cc)
deliver-some (x ∷ xs) v count n h = ground arith

member-All : (P : Str → Type 0) (xs : List Str) (x : Str) → All P xs → Any (λ y. x ≡ y) xs → P x
member-All P [] x h found = elim found [ ]
member-All P (y ∷ ys) x h (inl e) = subst P (sym e) h.0
member-All P (y ∷ ys) x h (inr found) = member-All P ys x h.1 found

module _ (g : Globbing) (ts : Timeouts) (process : Process) where
  -- The text that is read of one of `attributes` of the control file is accepted when it is written
  -- back, and changes nothing, if the branches have the form in which the program keeps them, the
  -- first path starts with a slash, and the numbers are at most 2^63 - 1.
  pub setxattr_controlfile-getxattr_controlfile :
      (c : Control ts) (attrname v : Str) (count : ℕ) (n : ℤ)
      → IsPlain g ts process c
      → Any (λ a. attrname ≡ a) attributes
      → getxattr_controlfile ts process attrname count c ≡ (n, some v)
      → setxattr_controlfile g ts attrname v 0 c ≡ (pos 0, c)
  unfolding getxattr_controlfile
  setxattr_controlfile-getxattr_controlfile c attrname v count n plain known h =
      let same = deliver-some (read_parts ts process (split attrname b'.') c) v count n h in
      subst (λ t. setxattr_controlfile g ts attrname t 0 c ≡ (pos 0, c)) same
        (member-All (IsRestored g ts process c) attributes attrname
          (attributes-IsRestored g ts process c plain) known)
