-- ===== src/Policy/First.antt =====
-- src/policy_ff.cpp, src/policy_epff.cpp: the first branch that passes.
use mergerfs.Base.{ℕ, List, [], ◌∷◌, ◌++◌, Str}
use mergerfs.Errno.{enoent}
use mergerfs.Branch.{Branch, Branches}
use mergerfs.Policy.Types.{View, Category, Outcome, Func, success, failure, calc_error}
use mergerfs.Policy.Guard.{
  Verdict, skip, pass, take, create_guard, ep_create_guard, ep_action_readonly_guard,
}
use mergerfs.Policy.Every.{search_guard}

-- The loop returns at the first branch that passes.
unfoldable pub first : {A : Type 0} → (Branch → Verdict A) → ℕ → Branches → List Str → Outcome
unfolding calc_error
first guard error [] paths = (failure error, paths)
first guard error (b ∷ bs) paths = elim (guard b) [
  | skip e ↦ first guard (calc_error error e) bs paths
  | pass ↦ first guard error bs paths
  | take x ↦ (success, paths ++ b.path ∷ [])
]

unfoldable pub ff_create : View → Branches → ℕ → List Str → Outcome
unfolding first create_guard
ff_create v bs minfreespace paths = first (create_guard v minfreespace) enoent bs paths

unfoldable pub epff_create : View → Branches → Str → ℕ → List Str → Outcome
unfolding first ep_create_guard
epff_create v bs fusepath minfreespace paths =
    first (ep_create_guard v fusepath minfreespace) enoent bs paths

unfoldable pub epff_action : View → Branches → Str → List Str → Outcome
unfolding first ep_action_readonly_guard
epff_action v bs fusepath paths = first (ep_action_readonly_guard v fusepath) enoent bs paths

unfoldable pub epff_search : View → Branches → Str → List Str → Outcome
unfolding first search_guard
epff_search v bs fusepath paths = first (search_guard v fusepath) enoent bs paths

unfoldable pub epff : View → Func
unfolding epff_create epff_action epff_search
epff v Category.create bs fusepath minfreespace paths = epff_create v bs fusepath minfreespace paths
epff v Category.action bs fusepath minfreespace paths = epff_action v bs fusepath paths
epff v Category.search bs fusepath minfreespace paths = epff_search v bs fusepath paths
epff v Category.invalid bs fusepath minfreespace paths = epff_search v bs fusepath paths

unfoldable pub ff : View → Func
unfolding ff_create epff
ff v Category.create bs fusepath minfreespace paths = ff_create v bs minfreespace paths
ff v Category.action bs fusepath minfreespace paths =
    epff v Category.action bs fusepath minfreespace paths
ff v Category.search bs fusepath minfreespace paths =
    epff v Category.search bs fusepath minfreespace paths
ff v Category.invalid bs fusepath minfreespace paths =
    epff v Category.invalid bs fusepath minfreespace paths
