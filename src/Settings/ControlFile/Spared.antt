-- ===== src/Settings/ControlFile/Spared.antt =====
-- src/fuse_setxattr.cpp: what one attribute of the control file leaves as it was.
use mergerfs.Base.{
  arith, ℕ, ℤ, pos, neg_of, ◌≡◌, refl, ap, sym, ◌∙◌, Bool, true, false, Bool-cases, [], ◌∷◌, Str,
  str_eq, ◌⊎◌, inl, inr,
}
use mergerfs.Errno.{eexist}
use mergerfs.Strings.{c_str}
use mergerfs.Policy.Types.{Category}
use mergerfs.Policy.Kind.{Kind}
use mergerfs.Policy.Table.{codes, find}
use mergerfs.Settings.{
  Settings, assign_func, set_found_func, set_func_policy, set_category_policy, set_found_category,
  assign_category,
}
use mergerfs.Settings.Func.{FuseFunc, find_func, find_category}
use mergerfs.Settings.ControlFile.{
  creates, clear_if, Answer, answer_of, setxattr_bool, setxattr_controlfile_func_policy,
  setxattr_controlfile_category_policy,
}
use mergerfs.Settings.ControlFile.Write.{
  Timeouts, Control, into, set_double, setxattr_double, setxattr_statfs_timeout,
}
use mergerfs.Settings.ControlFile.Kept.{Kept, setxattr_uint64_t-Kept, setxattr_bool-Kept}

abbrev PolicyKept : Settings → Answer Settings → Type 0
PolicyKept s (r, v) = ((r ≡ pos 0) ⊎ (v ≡ s)) × (v.xattr ≡ s.xattr)

assign_func-Kept :
    (f : FuseFunc) (k : Kind) (s : Settings) → PolicyKept s (answer_of (assign_func f k s))
unfolding assign_func
assign_func-Kept f Kind.invalid s = (inr refl, refl)
assign_func-Kept f _ s = (inl refl, refl)

set_found_func-Kept :
    (f : FuseFunc) (x : Str) (s : Settings) → PolicyKept s (answer_of (set_found_func f x s))
unfolding set_found_func
set_found_func-Kept FuseFunc.invalid x s = (inr refl, refl)
set_found_func-Kept f x s = assign_func-Kept f (find x) s

assign_category-Kept :
    (cat : Category) (k : Kind) (s : Settings) → PolicyKept s (answer_of (assign_category cat k s))
unfolding assign_category
assign_category-Kept cat Kind.invalid s = (inr refl, refl)
assign_category-Kept cat _ s = (inl refl, refl)

set_found_category-Kept :
    (cat : Category) (x : Str) (s : Settings)
    → PolicyKept s (answer_of (set_found_category cat x s))
unfolding set_found_category
set_found_category-Kept Category.invalid x s = (inr refl, refl)
set_found_category-Kept cat x s = assign_category-Kept cat (find x) s

clear_if-xattr : (b : Bool) (s : Settings) → (clear_if b s).xattr ≡ s.xattr
clear_if-xattr true s = refl
clear_if-xattr false s = refl

module _ (ts : Timeouts) where
  -- A refusal leaves all but the cache of open as it was, and no answer changes the member `xattr`.
  unfoldable pub IsSpared : Control ts → Answer (Control ts) → Type 0
  IsSpared c (r, c') =
      ((r ≡ pos 0)
        ⊎ (c' ≡ record c { settings = record c.settings { open_cache = c'.settings.open_cache } }))
      × (c'.settings.xattr ≡ c.settings.xattr)

  pub into-IsSpared :
      {A : Type 0} (put : A → Settings) (old : A) (res : Answer A) (c : Control ts)
      → put old ≡ c.settings
      → ((v : A) → (put v).xattr ≡ c.settings.xattr)
      → Kept old res
      → IsSpared c (into ts put res c)
  unfolding IsSpared
  into-IsSpared put old (r, v) c same keeps (inl done) = (inl done, keeps v)
  into-IsSpared put old (r, v) c same keeps (inr kept) =
      let whole : put v ≡ c.settings = ap put kept ∙ same in
      (
        inr (
            ap (λ s. record c { settings = s }) whole
            ∙ sym (
                ap (λ s. record c { settings = record c.settings { open_cache = s.open_cache } })
                  whole)),
        keeps v,
      )

  pub same-IsSpared : (c : Control ts) (r : ℤ) → IsSpared c (r, c)
  unfolding IsSpared
  same-IsSpared c r = (inr refl, refl)

  double-IsSpared :
      (setter : ts.Number → ts.Fuse → ts.Fuse) (d : ts.Number × Str) (c : Control ts)
      → IsSpared c (set_double ts setter d c)
  unfolding IsSpared set_double
  double-IsSpared setter (d, []) c = (inl refl, refl)
  double-IsSpared setter (d, x ∷ rest) c = (inr refl, refl)

  pub setxattr_double-IsSpared :
      (setter : ts.Number → ts.Fuse → ts.Fuse) (x : Str) (fl : ℕ) (c : Control ts)
      → IsSpared c (setxattr_double ts setter x fl c)
  unfolding setxattr_double
  setxattr_double-IsSpared setter x fl c =
      ground
        (arith, same-IsSpared c (neg_of eexist), double-IsSpared setter (ts.strtod (c_str x)) c)

  pub setxattr_statfs_timeout-IsSpared :
      (x : Str) (fl : ℕ) (c : Control ts) → IsSpared c (setxattr_statfs_timeout ts x fl c)
  unfolding setxattr_statfs_timeout IsSpared
  setxattr_statfs_timeout-IsSpared x fl c = elim (setxattr_uint64_t-Kept x fl c.statfs_timeout) [
    | inl done ↦ (inl done, refl)
    | inr kept ↦ (inr (ap (λ t. record c { statfs_timeout = t }) kept), refl)
  ]

  cleared-IsSpared :
      (b : Bool) (res : Answer Settings) (c : Control ts)
      → PolicyKept (clear_if b c.settings) res
      → IsSpared c (into ts (λ v. v) res c)
  unfolding IsSpared
  cleared-IsSpared b (r, v) c (inl done, keeps) = (inl done, keeps ∙ clear_if-xattr b c.settings)
  cleared-IsSpared b (r, v) c (inr kept, keeps) = (
    inr (ap (λ s. record c { settings = s }) (uncleared b v kept)),
    keeps ∙ clear_if-xattr b c.settings,
  )
    where
      uncleared :
          (b : Bool) (v : Settings)
          → v ≡ clear_if b c.settings
          → v ≡ record c.settings { open_cache = v.open_cache }
      uncleared true v kept =
          kept ∙ sym (ap (λ s. record c.settings { open_cache = s.open_cache }) kept)
      uncleared false v kept =
          kept ∙ sym (ap (λ s. record c.settings { open_cache = s.open_cache }) kept)

  pub func_policy-IsSpared :
      (name x : Str) (fl : ℕ) (c : Control ts)
      → IsSpared c (into ts (λ v. v) (setxattr_controlfile_func_policy name x fl c.settings) c)
  unfolding setxattr_controlfile_func_policy set_func_policy
  func_policy-IsSpared name x fl c = elim (Bool-cases (creates fl)) [
    | inl h ↦ rw h (same-IsSpared c _)
    | inr h ↦ rw h (
        cleared-IsSpared (str_eq name (codes "open")) _ c
          (set_found_func-Kept (find_func name) x _))
  ]

  pub category_policy-IsSpared :
      (name x : Str) (fl : ℕ) (c : Control ts)
      → IsSpared c (into ts (λ v. v) (setxattr_controlfile_category_policy name x fl c.settings) c)
  unfolding setxattr_controlfile_category_policy set_category_policy
  category_policy-IsSpared name x fl c = elim (Bool-cases (creates fl)) [
    | inl h ↦ rw h (same-IsSpared c _)
    | inr h ↦ rw h (
        cleared-IsSpared (str_eq name (codes "search")) _ c
          (set_found_category-Kept (find_category name) x _))
  ]

  -- A member that is a Boolean.
  pub bool-IsSpared :
      (put : Bool → Settings) (old : Bool) (x : Str) (fl : ℕ) (c : Control ts)
      → put old ≡ c.settings
      → ((v : Bool) → (put v).xattr ≡ c.settings.xattr)
      → IsSpared c (into ts put (setxattr_bool x fl old) c)
  bool-IsSpared put old x fl c same keeps =
      into-IsSpared put old _ c same keeps (setxattr_bool-Kept x fl old)
