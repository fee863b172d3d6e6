-- ===== src/Settings/ControlFile/Kept.antt =====
-- src/fuse_setxattr.cpp: a value that is refused for a member leaves the member.
use mergerfs.Base.{
  arith, ℕ, pos, neg_of, ◌≡◌, refl, Bool, true, false, Str, Option, none, some, ◌⊎◌, inl, inr,
  if◌then◌else◌,
}
use mergerfs.Errno.{einval}
use mergerfs.Numbers.{to_uint64_t, to_time_t}
use mergerfs.Branch.{Branches}
use mergerfs.Branch.Text.{Globbing}
use mergerfs.Settings.{StatFs, StatFsIgnore}
use mergerfs.Settings.ControlFile.{
  creates, Answer, setxattr_uint64_t, setxattr_time_t, setxattr_bool, setxattr_statfs,
  setxattr_statfsignore,
}
use mergerfs.Settings.ControlFile.Write.{instruct, setxattr_srcmounts}

-- A conditional has what both of its branches have.
pub if-holds {ℓ} :
    {A : Type ℓ} (P : A → Type 0) (b : Bool) (x y : A) → P x → P y → P (if b then x else y)
if-holds P true x y hx hy = hx
if-holds P false x y hx hy = hy

-- A refusal leaves the value.
abbrev pub Kept : {A : Type 0} → A → Answer A → Type 0
Kept old (r, v) = (r ≡ pos 0) ⊎ (v ≡ old)

pub setxattr_uint64_t-Kept : (x : Str) (fl old : ℕ) → Kept old (setxattr_uint64_t x fl old)
unfolding setxattr_uint64_t
setxattr_uint64_t-Kept x fl old =
    if-holds (Kept old) (creates fl) _ _ (inr refl) (found (to_uint64_t x))
  where
    found : (o : Option ℕ) → Kept old (elim o [ none ↦ (neg_of einval, old) | some n ↦ (pos 0, n) ])
    found none = inr refl
    found (some n) = inl refl

pub setxattr_time_t-Kept : (x : Str) (fl old : ℕ) → Kept old (setxattr_time_t x fl old)
unfolding setxattr_time_t
setxattr_time_t-Kept x fl old =
    if-holds (Kept old) (creates fl) _ _ (inr refl) (found (to_time_t x))
  where
    found : (o : Option ℕ) → Kept old (elim o [ none ↦ (neg_of einval, old) | some n ↦ (pos 0, n) ])
    found none = inr refl
    found (some n) = inl refl

pub setxattr_bool-Kept : (x : Str) (fl : ℕ) (old : Bool) → Kept old (setxattr_bool x fl old)
unfolding setxattr_bool
setxattr_bool-Kept x fl old = ground arith

pub setxattr_statfs-Kept : (x : Str) (fl : ℕ) (old : StatFs) → Kept old (setxattr_statfs x fl old)
unfolding setxattr_statfs
setxattr_statfs-Kept x fl old = ground arith

pub setxattr_statfsignore-Kept :
    (x : Str) (fl : ℕ) (old : StatFsIgnore) → Kept old (setxattr_statfsignore x fl old)
unfolding setxattr_statfsignore
setxattr_statfsignore-Kept x fl old = ground arith

pub setxattr_srcmounts-Kept :
    (g : Globbing) (x : Str) (fl : ℕ) (old : Branches) → Kept old (setxattr_srcmounts g x fl old)
unfolding setxattr_srcmounts instruct
setxattr_srcmounts-Kept g x fl old = ground arith

-- A refused policy leaves the configuration, and a policy never changes the member `xattr`.
