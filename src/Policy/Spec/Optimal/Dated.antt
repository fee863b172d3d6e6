-- ===== src/Policy/Spec/Optimal/Dated.antt =====
-- src/policy_newest.cpp: the three loops against the tests of epff, with the time of the file.
use mergerfs.Base.{
  ℕ, ℤ, ltb_ℤ, ◌≤ℤ◌, Option, Option-cases, ◌≡◌, refl, true, false, none, some, Str, arith, inl, inr,
  Bool-cases, if◌then◌else◌,
}
use mergerfs.Errno.{enoent, erofs}
use mergerfs.Branch.{Branch, is_ro, is_ro_or_nc}
use mergerfs.Policy.Types.{View, Stat, Category, exists, exists_stat, statvfs_cache_readonly}
use mergerfs.Policy.Guard.{
  Verdict, take, skip, pass, ep_create_guard, ep_action_readonly_guard, create_guard,
}
use mergerfs.Policy.Every.{search_guard}
use mergerfs.Policy.Newest.{
  time_min, create_verdict, action_verdict, search_verdict, space_guard, readonly_guard,
}
use mergerfs.Policy.Candidates.{IsSkipReason}
use mergerfs.Policy.Spec.Early.{IsEarly, IsWorse}

-- The time of the file stands for what a test has found.
abbrev pub dated : {A : Type 0} → Verdict A → Option Stat → Verdict ℤ
dated (skip e) o = skip e
dated pass o = pass
dated (take x) none = pass
dated (take x) (some st) = take st.mtime

-- The candidates by category, which are those of epff, with the time of the file on each.
abbrev pub ep_time : View → Category → Str → ℕ → Branch → Verdict ℤ
ep_time v Category.create path n b = dated (ep_create_guard v path n b) (exists_stat v b.path path)
ep_time v Category.action path n b =
    dated (ep_action_readonly_guard v path b) (exists_stat v b.path path)
ep_time v Category.search path n b = dated (search_guard v path b) (exists_stat v b.path path)
ep_time v Category.invalid path n b = dated (search_guard v path b) (exists_stat v b.path path)

-- Every time is one of the type `time_t`, of 64 bits.
abbrev pub IsTimed : View → Type 0
IsTimed v = (p : Str) (st : Stat) → v.lstat p ≡ some st → time_min ≤ℤ st.mtime

-- The time is tested first, and the rest of the tests, `x`, only if the branch is not too old.
time_first :
    (t best : ℤ) (x d : Verdict ℤ)
    → time_min ≤ℤ t
    → (ltb_ℤ t best ≡ true → IsWorse best d)
    → (ltb_ℤ t best ≡ false → IsEarly best x d)
    → IsEarly best (if ltb_ℤ t best then pass else x) d
time_first t best x d timed old young = elim (Bool-cases (ltb_ℤ t best)) [
  | inl e ↦ rw e (inr (ground arith, old e))
  | inr e ↦ rw e (young e)
]

-- Tests that end with a time.
abbrev Times : ℤ → Verdict ℤ → Type 0
Times t (skip e) = Unit
Times t pass = Unit
Times t (take m) = m ≡ t

Times-IsWorse : (t best : ℤ) (d : Verdict ℤ) → Times t d → ltb_ℤ t best ≡ true → IsWorse best d
Times-IsWorse t best (skip e) h old = tt
Times-IsWorse t best pass h old = tt
Times-IsWorse t best (take m) h old = rw h old

Times-IsEarly : (t best : ℤ) (d : Verdict ℤ) → Times t d → ltb_ℤ t best ≡ false → IsEarly best d d
Times-IsEarly t best (skip e) h young = refl
Times-IsEarly t best pass h young = inl refl
Times-IsEarly t best (take m) h young = (refl, rw h young)

time_first-Times :
    (t best : ℤ) (d : Verdict ℤ)
    → time_min ≤ℤ t
    → Times t d
    → IsEarly best (if ltb_ℤ t best then pass else d) d
time_first-Times t best d timed h =
    time_first t best d d timed (Times-IsWorse t best d h) (Times-IsEarly t best d h)

pub dated-Reasoned :
    {A : Type 0} (d : Verdict A) (o : Option Stat) → IsSkipReason d → IsSkipReason (dated d o)
dated-Reasoned (skip e) o h = h
dated-Reasoned pass o h = h
dated-Reasoned (take x) none h = tt
dated-Reasoned (take x) (some st) h = tt

module _ (v : View) (path : Str) (n : ℕ) (b : Branch) where
  dated-space_guard :
      (st : Stat)
      → is_ro_or_nc b ≡ false
      → dated (create_guard v n b) (some st) ≡ space_guard v n b st.mtime
  unfolding space_guard create_guard
  dated-space_guard st h = rw h (ground arith)

  dated-readonly_guard :
      (st : Stat)
      → dated
          (elim (statvfs_cache_readonly v b.path) [
            | none ↦ skip enoent
            | some readonly ↦ if readonly then skip erofs else take (tt {0})
          ])
          (some st)
        ≡ readonly_guard v b st.mtime
  unfolding readonly_guard
  dated-readonly_guard st = ground arith

  space_guard-Times : (t : ℤ) → Times t (space_guard v n b t)
  unfolding space_guard
  space_guard-Times t = ground arith

  readonly_guard-Times : (t : ℤ) → Times t (readonly_guard v b t)
  unfolding readonly_guard
  readonly_guard-Times t = ground arith

  module _ (e : exists_stat v b.path path ≡ none) where
    exists-none : exists v b.path path ≡ false
    unfolding exists
    exists-none = ground arith

    create_none : (best : ℤ) → create_verdict v path n best b ≡ skip enoent
    unfolding create_verdict
    create_none best = ground arith

    action_none : (best : ℤ) → action_verdict v path best b ≡ skip enoent
    unfolding action_verdict
    action_none best = ground arith

    search_none : (best : ℤ) → search_verdict v path best b ≡ pass
    unfolding search_verdict
    search_none best = ground arith

  module _ (st : Stat) (e : exists_stat v b.path path ≡ some st) where
    exists-some : exists v b.path path ≡ true
    unfolding exists
    exists-some = ground arith

    create_some :
        (best : ℤ)
        → create_verdict v path n best b ≡ (
            if is_ro_or_nc b
            then skip erofs
            else if ltb_ℤ st.mtime best
            then pass
            else space_guard v n b st.mtime)
    unfolding create_verdict
    create_some best = ground arith

    action_some :
        (best : ℤ)
        → action_verdict v path best b ≡ (
            if is_ro b
            then skip erofs
            else if ltb_ℤ st.mtime best
            then pass
            else readonly_guard v b st.mtime)
    unfolding action_verdict
    action_some best = ground arith

    search_some :
        (best : ℤ)
        → search_verdict v path best b ≡ (if ltb_ℤ st.mtime best then pass else take st.mtime)
    unfolding search_verdict
    search_some best = ground arith

module _ (v : View) (timed : IsTimed v) (path : Str) (n : ℕ) where
  create-found :
      (best : ℤ) (b : Branch) (st : Stat)
      → exists_stat v b.path path ≡ some st
      → time_min ≤ℤ st.mtime
      → IsEarly best (create_verdict v path n best b) (ep_time v Category.create path n b)
  unfolding ep_create_guard
  create-found best b st e late = elim (Bool-cases (is_ro_or_nc b)) [
    | inl ro ↦ rw (create_some v path n b st e best, exists-some v path n b st e) (rw (e, ro) refl)
    | inr other ↦
        rw (create_some v path n b st e best, exists-some v path n b st e)
          (rw (e, dated-space_guard v path n b st other, other)
            (time_first-Times st.mtime best _ late (space_guard-Times v path n b st.mtime)))
  ]

  pub create-IsEarly :
      (best : ℤ) (b : Branch)
      → IsEarly best (create_verdict v path n best b) (ep_time v Category.create path n b)
  unfolding ep_create_guard
  create-IsEarly best b = elim (Option-cases (exists_stat v b.path path)) [
    | inl e ↦ rw (create_none v path n b e best, exists-none v path n b e) refl
    | inr (st, e) ↦ create-found best b st e (timed _ st (unfold exists_stat in e))
  ]

  action-found :
      (best : ℤ) (b : Branch) (st : Stat)
      → exists_stat v b.path path ≡ some st
      → time_min ≤ℤ st.mtime
      → IsEarly best (action_verdict v path best b) (ep_time v Category.action path n b)
  unfolding ep_action_readonly_guard
  action-found best b st e late = elim (Bool-cases (is_ro b)) [
    | inl ro ↦ rw (action_some v path n b st e best, exists-some v path n b st e) (rw (e, ro) refl)
    | inr other ↦
        rw (action_some v path n b st e best, exists-some v path n b st e)
          (rw (e, other, dated-readonly_guard v path n b st)
            (time_first-Times st.mtime best _ late (readonly_guard-Times v path n b st.mtime)))
  ]

  pub action-IsEarly :
      (best : ℤ) (b : Branch)
      → IsEarly best (action_verdict v path best b) (ep_time v Category.action path n b)
  unfolding ep_action_readonly_guard
  action-IsEarly best b = elim (Option-cases (exists_stat v b.path path)) [
    | inl e ↦ rw (action_none v path n b e best, exists-none v path n b e) refl
    | inr (st, e) ↦ action-found best b st e (timed _ st (unfold exists_stat in e))
  ]

  pub search-IsEarly :
      (best : ℤ) (b : Branch)
      → IsEarly best (search_verdict v path best b) (ep_time v Category.search path n b)
  unfolding search_guard
  search-IsEarly best b = elim (Option-cases (exists_stat v b.path path)) [
    | inl e ↦ rw (search_none v path n b e best, exists-none v path n b e) (inl refl)
    | inr (st, e) ↦
        rw (search_some v path n b st e best, exists-some v path n b st e)
          (rw e (
            time_first-Times st.mtime best (take st.mtime) (timed _ st (unfold exists_stat in e))
              refl))
  ]
