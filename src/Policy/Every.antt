-- ===== src/Policy/Every.antt =====
-- src/policy_all.cpp, src/policy_epall.cpp: every branch that passes, in order.
use mergerfs.Base.{ℕ, List, [], ◌∷◌, ◌++◌, Str, if◌then◌else◌}
use mergerfs.Errno.{enoent}
use mergerfs.Branch.{Branch, Branches}
use mergerfs.Policy.Types.{View, Category, Outcome, Func, exists, calc_error, unless_empty}
use mergerfs.Policy.Guard.{
  Verdict, skip, pass, take, create_guard, ep_create_guard, ep_action_readonly_guard,
}

-- The loop over the branches: `error` is the reason kept so far, and the last argument the vector.
unfoldable pub collect : {A : Type 0} → (Branch → Verdict A) → ℕ → Branches → List Str → Outcome
unfolding calc_error unless_empty
collect guard error [] paths = unless_empty error paths
collect guard error (b ∷ bs) paths = elim (guard b) [
  | skip e ↦ collect guard (calc_error error e) bs paths
  | pass ↦ collect guard error bs paths
  | take x ↦ collect guard error bs (paths ++ b.path ∷ [])
]

-- `epall::search`, whose error is always ENOENT.
unfoldable pub search_guard : View → Str → Branch → Verdict (Unit {0})
unfolding exists
search_guard v fusepath b = if exists v b.path fusepath then take tt else pass

unfoldable pub all_create : View → Branches → ℕ → List Str → Outcome
unfolding collect create_guard
all_create v bs minfreespace paths = collect (create_guard v minfreespace) enoent bs paths

unfoldable pub epall_create : View → Branches → Str → ℕ → List Str → Outcome
unfolding collect ep_create_guard
epall_create v bs fusepath minfreespace paths =
    collect (ep_create_guard v fusepath minfreespace) enoent bs paths

unfoldable pub epall_action : View → Branches → Str → List Str → Outcome
unfolding collect ep_action_readonly_guard
epall_action v bs fusepath paths = collect (ep_action_readonly_guard v fusepath) enoent bs paths

unfoldable pub epall_search : View → Branches → Str → List Str → Outcome
unfolding collect search_guard
epall_search v bs fusepath paths = collect (search_guard v fusepath) enoent bs paths

unfoldable pub epall : View → Func
unfolding epall_create epall_action epall_search
epall v Category.create bs fusepath minfreespace paths =
    epall_create v bs fusepath minfreespace paths
epall v Category.action bs fusepath minfreespace paths = epall_action v bs fusepath paths
epall v Category.search bs fusepath minfreespace paths = epall_search v bs fusepath paths
epall v Category.invalid bs fusepath minfreespace paths = epall_search v bs fusepath paths

unfoldable pub all : View → Func
unfolding all_create epall
all v Category.create bs fusepath minfreespace paths = all_create v bs minfreespace paths
all v Category.action bs fusepath minfreespace paths =
    epall v Category.action bs fusepath minfreespace paths
all v Category.search bs fusepath minfreespace paths =
    epall v Category.search bs fusepath minfreespace paths
all v Category.invalid bs fusepath minfreespace paths =
    epall v Category.invalid bs fusepath minfreespace paths
