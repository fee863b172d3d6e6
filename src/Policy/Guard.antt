-- ===== src/Policy/Guard.antt =====
-- The chains of tests that stand at the head of the policies' loops. The files of src/policy_*.cpp
-- repeat three chains for `create`, `action` and `search`; each test ends in `error_and_continue`,
-- in a plain `continue`, or lets the branch through.
use mergerfs.Base.{ℕ, ◌≡◌, refl, ◌⊎◌, inl, inr, none, some, Str, ltb, if◌then◌else◌}
use mergerfs.Errno.{enoent, enospc, erofs}
use mergerfs.Branch.{Branch, is_ro, is_ro_or_nc}
use mergerfs.Policy.Types.{
  View, Info, exists, info, statvfs_cache_readonly, statvfs_cache_spaceavail,
  statvfs_cache_spaceused,
}

pub data Verdict (A : Type 0) : Type 0 where
  skip : ℕ → Verdict A
  pass : Verdict A
  take : A → Verdict A

-- To split on a computed verdict and keep the equation.
pub Verdict-cases :
    {A : Type 0} (d : Verdict A)
    → ((e : ℕ) × (d ≡ skip e)) ⊎ ((d ≡ pass) ⊎ ((a : A) × (d ≡ take a)))
Verdict-cases (skip e) = inl (e, refl)
Verdict-cases pass = inr (inl refl)
Verdict-cases (take a) = inr (inr (a, refl))

-- `create` without the test for the path: all, ff, mfs, lfs, lus.
unfoldable pub create_guard : View → ℕ → Branch → Verdict Info
unfolding is_ro_or_nc info
create_guard v minfreespace b = if is_ro_or_nc b then skip erofs else elim (info v b.path) [
  | none ↦ skip enoent
  | some i ↦
      if i.readonly
      then skip erofs
      else if ltb i.spaceavail minfreespace
      then skip enospc
      else take i
]

-- `create` of the path-preserving policies.
unfoldable pub ep_create_guard : View → Str → ℕ → Branch → Verdict Info
unfolding exists create_guard
ep_create_guard v fusepath minfreespace b =
    if exists v b.path fusepath then create_guard v minfreespace b else skip enoent

-- `action` of the policies that go by space.
unfoldable pub ep_action_guard : View → Str → Branch → Verdict Info
unfolding exists is_ro info
ep_action_guard v fusepath b =
    if exists v b.path fusepath
    then if is_ro b then skip erofs else elim (info v b.path) [
      | none ↦ skip enoent
      | some i ↦ if i.readonly then skip erofs else take i
    ]
    else skip enoent

-- `action` of epall and epff.
unfoldable pub ep_action_readonly_guard : View → Str → Branch → Verdict (Unit {0})
unfolding exists is_ro statvfs_cache_readonly
ep_action_readonly_guard v fusepath b =
    if exists v b.path fusepath
    then if is_ro b then skip erofs else elim (statvfs_cache_readonly v b.path) [
      | none ↦ skip enoent
      | some readonly ↦ if readonly then skip erofs else take tt
    ]
    else skip enoent

-- `search` by the space that is free, and by the space that is used.
unfoldable pub ep_search_avail_guard : View → Str → Branch → Verdict ℕ
unfolding exists statvfs_cache_spaceavail
ep_search_avail_guard v fusepath b =
    if exists v b.path fusepath
    then elim (statvfs_cache_spaceavail v b.path) [ none ↦ pass | some n ↦ take n ]
    else pass

unfoldable pub ep_search_used_guard : View → Str → Branch → Verdict ℕ
unfolding exists statvfs_cache_spaceused
ep_search_used_guard v fusepath b =
    if exists v b.path fusepath
    then elim (statvfs_cache_spaceused v b.path) [ none ↦ pass | some n ↦ take n ]
    else pass

-- The field of the information that a policy compares.
unfoldable pub on_avail : Verdict Info → Verdict ℕ
on_avail (skip e) = skip e
on_avail pass = pass
on_avail (take i) = take i.spaceavail

unfoldable pub on_used : Verdict Info → Verdict ℕ
on_used (skip e) = skip e
on_used pass = pass
on_used (take i) = take i.spaceused
