-- ===== src/Policy/Newest.antt =====
-- src/policy_newest.cpp: the branch whose file was modified last. The comparison stands between
-- the tests, so that a branch with an older file is passed over before its space is looked at.
use mergerfs.Base.{
  ℕ, ℤ, negsuc, none, some, List, [], ◌∷◌, Str, if◌then◌else◌, ltb, ltb_ℤ, ◌-◌, ◌^◌,
}
use mergerfs.Errno.{enoent, enospc, erofs}
use mergerfs.Branch.{Branch, Branches, is_ro, is_ro_or_nc}
use mergerfs.Policy.Types.{
  View, Category, Outcome, Func, exists_stat, info, statvfs_cache_readonly, calc_error,
}
use mergerfs.Policy.Guard.{Verdict, skip, pass, take}
use mergerfs.Policy.Scan.{Scan, push_best}

-- `std::numeric_limits<time_t>::min()`, for a 64-bit `time_t`.
abbrev pub time_min : ℤ
time_min = negsuc (2 ^ 63 - 1)

-- The tests below the comparison.
unfoldable pub space_guard : View → ℕ → Branch → ℤ → Verdict ℤ
unfolding info
space_guard v minfreespace b m = elim (info v b.path) [
  | none ↦ skip enoent
  | some i ↦
      if i.readonly
      then skip erofs
      else if ltb i.spaceavail minfreespace
      then skip enospc
      else take m
]

unfoldable pub readonly_guard : View → Branch → ℤ → Verdict ℤ
unfolding statvfs_cache_readonly
readonly_guard v b m = elim (statvfs_cache_readonly v b.path) [
  | none ↦ skip enoent
  | some readonly ↦ if readonly then skip erofs else take m
]

-- One round of each loop: what happens to the branch when the newest time so far is `best`.
unfoldable pub create_verdict : View → Str → ℕ → ℤ → Branch → Verdict ℤ
unfolding exists_stat is_ro_or_nc space_guard
create_verdict v fusepath minfreespace best b = elim (exists_stat v b.path fusepath) [
  | none ↦ skip enoent
  | some st ↦
      if is_ro_or_nc b
      then skip erofs
      else if ltb_ℤ st.mtime best
      then pass
      else space_guard v minfreespace b st.mtime
]

unfoldable pub action_verdict : View → Str → ℤ → Branch → Verdict ℤ
unfolding exists_stat is_ro readonly_guard
action_verdict v fusepath best b = elim (exists_stat v b.path fusepath) [
  | none ↦ skip enoent
  | some st ↦
      if is_ro b
      then skip erofs
      else if ltb_ℤ st.mtime best
      then pass
      else readonly_guard v b st.mtime
]

unfoldable pub search_verdict : View → Str → ℤ → Branch → Verdict ℤ
unfolding exists_stat
search_verdict v fusepath best b = elim (exists_stat v b.path fusepath) [
  | none ↦ pass
  | some st ↦ if ltb_ℤ st.mtime best then pass else take st.mtime
]

-- `newest = st.st_mtime; newestbasepath = &branch->path;`
unfoldable pub accept : Branch → Verdict ℤ → Scan ℤ → Scan ℤ
unfolding calc_error
accept b (skip e) s = record s { error = calc_error s.error e }
accept b pass s = s
accept b (take m) s = record s { best = m; base = some b.path }

unfoldable pub newest_loop : (ℤ → Branch → Verdict ℤ) → Scan ℤ → Branches → Scan ℤ
unfolding accept
newest_loop verdict s [] = s
newest_loop verdict s (b ∷ bs) = newest_loop verdict (accept b (verdict s.best b) s) bs

abbrev pub newest_start : Scan ℤ
newest_start = record { error = enoent; best = time_min; base = none }

unfoldable pub newest_create : View → Branches → Str → ℕ → List Str → Outcome
unfolding newest_loop create_verdict push_best
newest_create v bs fusepath minfreespace paths =
    push_best (newest_loop (create_verdict v fusepath minfreespace) newest_start bs) paths

unfoldable pub newest_action : View → Branches → Str → List Str → Outcome
unfolding newest_loop action_verdict push_best
newest_action v bs fusepath paths =
    push_best (newest_loop (action_verdict v fusepath) newest_start bs) paths

unfoldable pub newest_search : View → Branches → Str → List Str → Outcome
unfolding newest_loop search_verdict push_best
newest_search v bs fusepath paths =
    push_best (newest_loop (search_verdict v fusepath) newest_start bs) paths

unfoldable pub newest : View → Func
unfolding newest_create newest_action newest_search
newest v Category.create bs fusepath minfreespace paths =
    newest_create v bs fusepath minfreespace paths
newest v Category.action bs fusepath minfreespace paths = newest_action v bs fusepath paths
newest v Category.search bs fusepath minfreespace paths = newest_search v bs fusepath paths
newest v Category.invalid bs fusepath minfreespace paths = newest_search v bs fusepath paths
