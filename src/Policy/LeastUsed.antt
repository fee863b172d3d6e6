-- ===== src/Policy/LeastUsed.antt =====
-- src/policy_lus.cpp, src/policy_eplus.cpp: the branch with the least space
-- used. A branch is passed over `if(spaceused >= best)`.
use mergerfs.Base.{ℕ, List, Str, Bool, leb}
use mergerfs.Branch.{Branches}
use mergerfs.StatVfs.{u64_max}
use mergerfs.Policy.Types.{View, Category, Outcome, Func}
use mergerfs.Policy.Guard.{
  create_guard, ep_create_guard, ep_action_guard, ep_search_used_guard, on_used,
}
use mergerfs.Policy.Scan.{scan}

-- `spaceused >= best`
abbrev pub at_least : ℕ → ℕ → Bool
at_least m best = leb best m

unfoldable pub lus_create : View → Branches → ℕ → List Str → Outcome
unfolding scan create_guard on_used
lus_create v bs minfreespace paths =
    scan at_least u64_max (λ b. on_used (create_guard v minfreespace b)) bs paths

unfoldable pub eplus_create : View → Branches → Str → ℕ → List Str → Outcome
unfolding scan ep_create_guard on_used
eplus_create v bs fusepath minfreespace paths =
    scan at_least u64_max (λ b. on_used (ep_create_guard v fusepath minfreespace b)) bs paths

unfoldable pub eplus_action : View → Branches → Str → List Str → Outcome
unfolding scan ep_action_guard on_used
eplus_action v bs fusepath paths =
    scan at_least u64_max (λ b. on_used (ep_action_guard v fusepath b)) bs paths

-- Here the least space so far starts at 0, and not at the greatest number as above.
unfoldable pub eplus_search : View → Branches → Str → List Str → Outcome
unfolding scan ep_search_used_guard
eplus_search v bs fusepath paths = scan at_least 0 (ep_search_used_guard v fusepath) bs paths

unfoldable pub eplus : View → Func
unfolding eplus_create eplus_action eplus_search
eplus v Category.create bs fusepath minfreespace paths =
    eplus_create v bs fusepath minfreespace paths
eplus v Category.action bs fusepath minfreespace paths = eplus_action v bs fusepath paths
eplus v Category.search bs fusepath minfreespace paths = eplus_search v bs fusepath paths
eplus v Category.invalid bs fusepath minfreespace paths = eplus_search v bs fusepath paths

unfoldable pub lus : View → Func
unfolding lus_create eplus
lus v Category.create bs fusepath minfreespace paths = lus_create v bs minfreespace paths
lus v Category.action bs fusepath minfreespace paths =
    eplus v Category.action bs fusepath minfreespace paths
lus v Category.search bs fusepath minfreespace paths =
    eplus v Category.search bs fusepath minfreespace paths
lus v Category.invalid bs fusepath minfreespace paths =
    eplus v Category.invalid bs fusepath minfreespace paths
