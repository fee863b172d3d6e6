-- ===== src/Policy/MostFree.antt =====
-- src/policy_mfs.cpp, src/policy_epmfs.cpp: the branch with the most space
-- available. A branch is passed over `if(spaceavail < best)`.
use mergerfs.Base.{ℕ, List, Str, ltb}
use mergerfs.Branch.{Branches}
use mergerfs.Policy.Types.{View, Category, Outcome, Func}
use mergerfs.Policy.Guard.{
  create_guard, ep_create_guard, ep_action_guard, ep_search_avail_guard, on_avail,
}
use mergerfs.Policy.Scan.{scan}

unfoldable pub mfs_create : View → Branches → ℕ → List Str → Outcome
unfolding scan create_guard on_avail
mfs_create v bs minfreespace paths =
    scan ltb 0 (λ b. on_avail (create_guard v minfreespace b)) bs paths

unfoldable pub epmfs_create : View → Branches → Str → ℕ → List Str → Outcome
unfolding scan ep_create_guard on_avail
epmfs_create v bs fusepath minfreespace paths =
    scan ltb 0 (λ b. on_avail (ep_create_guard v fusepath minfreespace b)) bs paths

unfoldable pub epmfs_action : View → Branches → Str → List Str → Outcome
unfolding scan ep_action_guard on_avail
epmfs_action v bs fusepath paths =
    scan ltb 0 (λ b. on_avail (ep_action_guard v fusepath b)) bs paths

unfoldable pub epmfs_search : View → Branches → Str → List Str → Outcome
unfolding scan ep_search_avail_guard
epmfs_search v bs fusepath paths = scan ltb 0 (ep_search_avail_guard v fusepath) bs paths

unfoldable pub epmfs : View → Func
unfolding epmfs_create epmfs_action epmfs_search
epmfs v Category.create bs fusepath minfreespace paths =
    epmfs_create v bs fusepath minfreespace paths
epmfs v Category.action bs fusepath minfreespace paths = epmfs_action v bs fusepath paths
epmfs v Category.search bs fusepath minfreespace paths = epmfs_search v bs fusepath paths
epmfs v Category.invalid bs fusepath minfreespace paths = epmfs_search v bs fusepath paths

unfoldable pub mfs : View → Func
unfolding mfs_create epmfs
mfs v Category.create bs fusepath minfreespace paths = mfs_create v bs minfreespace paths
mfs v Category.action bs fusepath minfreespace paths =
    epmfs v Category.action bs fusepath minfreespace paths
mfs v Category.search bs fusepath minfreespace paths =
    epmfs v Category.search bs fusepath minfreespace paths
mfs v Category.invalid bs fusepath minfreespace paths =
    epmfs v Category.invalid bs fusepath minfreespace paths
