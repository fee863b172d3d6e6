-- ===== src/Policy/LeastFree.antt =====
-- src/policy_lfs.cpp, src/policy_eplfs.cpp: the branch with the least space
-- available. A branch is passed over `if(spaceavail > best)`.
use mergerfs.Base.{ℕ, List, Str, Bool, ltb}
use mergerfs.Branch.{Branches}
use mergerfs.StatVfs.{u64_max}
use mergerfs.Policy.Types.{View, Category, Outcome, Func}
use mergerfs.Policy.Guard.{
  create_guard, ep_create_guard, ep_action_guard, ep_search_avail_guard, on_avail,
}
use mergerfs.Policy.Scan.{scan}

-- `spaceavail > best`
abbrev pub above : ℕ → ℕ → Bool
above m best = ltb best m

unfoldable pub lfs_create : View → Branches → ℕ → List Str → Outcome
unfolding scan create_guard on_avail
lfs_create v bs minfreespace paths =
    scan above u64_max (λ b. on_avail (create_guard v minfreespace b)) bs paths

unfoldable pub eplfs_create : View → Branches → Str → ℕ → List Str → Outcome
unfolding scan ep_create_guard on_avail
eplfs_create v bs fusepath minfreespace paths =
    scan above u64_max (λ b. on_avail (ep_create_guard v fusepath minfreespace b)) bs paths

unfoldable pub eplfs_action : View → Branches → Str → List Str → Outcome
unfolding scan ep_action_guard on_avail
eplfs_action v bs fusepath paths =
    scan above u64_max (λ b. on_avail (ep_action_guard v fusepath b)) bs paths

unfoldable pub eplfs_search : View → Branches → Str → List Str → Outcome
unfolding scan ep_search_avail_guard
eplfs_search v bs fusepath paths = scan above u64_max (ep_search_avail_guard v fusepath) bs paths

unfoldable pub eplfs : View → Func
unfolding eplfs_create eplfs_action eplfs_search
eplfs v Category.create bs fusepath minfreespace paths =
    eplfs_create v bs fusepath minfreespace paths
eplfs v Category.action bs fusepath minfreespace paths = eplfs_action v bs fusepath paths
eplfs v Category.search bs fusepath minfreespace paths = eplfs_search v bs fusepath paths
eplfs v Category.invalid bs fusepath minfreespace paths = eplfs_search v bs fusepath paths

unfoldable pub lfs : View → Func
unfolding lfs_create eplfs
lfs v Category.create bs fusepath minfreespace paths = lfs_create v bs minfreespace paths
lfs v Category.action bs fusepath minfreespace paths =
    eplfs v Category.action bs fusepath minfreespace paths
lfs v Category.search bs fusepath minfreespace paths =
    eplfs v Category.search bs fusepath minfreespace paths
lfs v Category.invalid bs fusepath minfreespace paths =
    eplfs v Category.invalid bs fusepath minfreespace paths
