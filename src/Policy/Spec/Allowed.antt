-- ===== src/Policy/Spec/Allowed.antt =====
-- What a branch must offer to each category of operations, and that the tests see to it.
use mergerfs.Base.{ℕ, ◌≤◌, ◌≡◌, refl, false, true, some, Str, arith, inl, inr, Option-cases}
use mergerfs.Branch.{Branch, eq_ro, eq_nc}
use mergerfs.StatVfs.{StatVfs, readonly, spaceavail}
use mergerfs.Policy.Types.{View, Category, exists, Info}
use mergerfs.Policy.Guard.{
  Verdict, take, create_guard, ep_create_guard, ep_action_guard, ep_action_readonly_guard,
  ep_search_avail_guard, ep_search_used_guard, on_avail, on_used,
}
use mergerfs.Policy.Every.{search_guard}
use mergerfs.Policy.Spec.Guards.{ep_create_guard_lem}

module _ (v : View) where
  -- New files may be put on the branch: it is neither RO nor NC, and its file system answers, is
  -- not mounted read-only, and has the space that is asked for.
  abbrev pub CanCreate : ℕ → Branch → Type 0
  CanCreate minfreespace b =
      (st : StatVfs) × (v.statvfs b.path ≡ some st)
      × (eq_ro b.mode ≡ false)
      × (eq_nc b.mode ≡ false)
      × (readonly st ≡ false)
      × (minfreespace ≤ spaceavail st)

  -- What is on the branch may be changed: it is not RO, and its file system answers and is not
  -- mounted read-only.
  abbrev pub CanChange : Branch → Type 0
  CanChange b =
      (st : StatVfs) × (v.statvfs b.path ≡ some st) × (eq_ro b.mode ≡ false) × (readonly st ≡ false)

  abbrev pub HasPath : Str → Branch → Type 0
  HasPath path b = exists v b.path path ≡ true

  -- What an operation of the category needs of a branch.
  abbrev pub Allows : Category → Str → ℕ → Branch → Type 0
  Allows Category.create path n b = CanCreate n b
  Allows Category.action path n b = HasPath path b × CanChange b
  Allows Category.search path n b = HasPath path b
  Allows Category.invalid path n b = HasPath path b

  pub create_guard-CanCreate :
      {n : ℕ} (b : Branch) (i : _) → create_guard v n b ≡ take i → CanCreate n b
  unfolding create_guard
  create_guard-CanCreate b i h = elim (Option-cases (v.statvfs b.path)) [
    | inl e ↦ absurd (ground arith)
    | inr (st, e) ↦ (st, e, ground arith, ground arith, ground arith, ground arith)
  ]

  pub ep_create_guard-CanCreate :
      (path : Str) {n : ℕ} (b : Branch) (i : _)
      → ep_create_guard v path n b ≡ take i
      → HasPath path b × CanCreate n b
  ep_create_guard-CanCreate path {n} b i h =
      let (found, rest) = (ep_create_guard_lem v path n b i).0 h in
      (found, create_guard-CanCreate b i rest)

  pub ep_action_guard-CanChange :
      (path : Str) (b : Branch) (i : _)
      → ep_action_guard v path b ≡ take i
      → HasPath path b × CanChange b
  unfolding ep_action_guard
  ep_action_guard-CanChange path b i h = elim (Option-cases (v.statvfs b.path)) [
    | inl e ↦ absurd (ground arith)
    | inr (st, e) ↦ (ground arith, (st, e, ground arith, ground arith))
  ]

  pub ep_action_readonly_guard-CanChange :
      (path : Str) (b : Branch) (i : _)
      → ep_action_readonly_guard v path b ≡ take i
      → HasPath path b × CanChange b
  unfolding ep_action_readonly_guard
  ep_action_readonly_guard-CanChange path b i h = elim (Option-cases (v.statvfs b.path)) [
    | inl e ↦ absurd (ground arith)
    | inr (st, e) ↦ (ground arith, (st, e, ground arith, ground arith))
  ]

  pub search_guard-HasPath :
      (path : Str) (b : Branch) (i : _) → search_guard v path b ≡ take i → HasPath path b
  unfolding search_guard
  search_guard-HasPath path b i h = ground arith

  pub ep_search_avail_guard-HasPath :
      (path : Str) (b : Branch) (i : ℕ) → ep_search_avail_guard v path b ≡ take i → HasPath path b
  unfolding ep_search_avail_guard
  ep_search_avail_guard-HasPath path b i h = ground arith

  pub ep_search_used_guard-HasPath :
      (path : Str) (b : Branch) (i : ℕ) → ep_search_used_guard v path b ≡ take i → HasPath path b
  unfolding ep_search_used_guard
  ep_search_used_guard-HasPath path b i h = ground arith

-- The measure of a verdict comes from the information that it took.
pub on_avail-take : (d : Verdict Info) (m : ℕ) → on_avail d ≡ take m → (i : Info) × (d ≡ take i)
unfolding on_avail
on_avail-take (Verdict.skip e) m h = absurd (ground arith)
on_avail-take Verdict.pass m h = absurd (ground arith)
on_avail-take (take i) m h = (i, refl)

pub on_used-take : (d : Verdict Info) (m : ℕ) → on_used d ≡ take m → (i : Info) × (d ≡ take i)
unfolding on_used
on_used-take (Verdict.skip e) m h = absurd (ground arith)
on_used-take Verdict.pass m h = absurd (ground arith)
on_used-take (take i) m h = (i, refl)
