-- ===== src/Policy/Spec/Appends.antt =====
-- A policy that does not shuffle appends to the vector that it is given.
use mergerfs.Base.{
  ℕ, Bool, ltb, ◌≡◌, ◌≢◌, refl, sym, none, Option-cases, List, [], ◌∷◌, ◌++◌, append-nil, Str, inl,
  inr,
}
use mergerfs.Errno.{enoent}
use mergerfs.Branch.{Branch, Branches}
use mergerfs.StatVfs.{u64_max}
use mergerfs.Policy.Types.{View, Category, Outcome, unless_empty}
use mergerfs.Policy.Guard.{Verdict, ep_search_avail_guard, ep_search_used_guard}
use mergerfs.Policy.Scan.{Scan, push_best, scan, scan_loop}
use mergerfs.Policy.Every.{collect, search_guard, all, epall}
use mergerfs.Policy.First.{first, ff, epff}
use mergerfs.Policy.MostFree.{mfs, epmfs}
use mergerfs.Policy.LeastFree.{above, lfs, eplfs}
use mergerfs.Policy.LeastUsed.{at_least, lus, eplus}
use mergerfs.Policy.Newest.{newest, newest_loop, newest_start, search_verdict}
use mergerfs.Policy.Random.{erofs_policy, invalid_policy}
use mergerfs.Policy.Kind.{Kind}
use mergerfs.Policy.Table.{func}
use mergerfs.Policy.Candidates.{candidates}
use mergerfs.Policy.Spec.Every.{collect-fold, names}
use mergerfs.Policy.Spec.First.{first-fold, head_or}

-- The vector begins with what it held before.
abbrev pub Appends : List Str → Outcome → Type 0
Appends paths o = (rest : List Str) × (o.1 ≡ paths ++ rest)

push_best-Appends : {M : Type 0} (s : Scan M) (paths : List Str) → Appends paths (push_best s paths)
unfolding push_best
push_best-Appends s paths = elim (Option-cases s.base) [
  | inl e ↦ rw e ([], sym (append-nil paths))
  | inr (p, e) ↦ rw e (p ∷ [], refl)
]

scan-Appends :
    {M : Type 0} (worse : M → M → Bool) (start : M) (guard : Branch → Verdict M) (bs : Branches)
    (paths : List Str)
    → Appends paths (scan worse start guard bs paths)
unfolding scan
scan-Appends worse start guard bs paths =
    push_best-Appends
      (scan_loop worse guard (record { error = enoent; best = start; base = none }) bs) paths

unless_empty-Appends :
    (e : ℕ) (paths rest : List Str) → Appends paths (unless_empty e (paths ++ rest))
unfolding unless_empty
unless_empty-Appends e [] [] = ([], refl)
unless_empty-Appends e [] (p ∷ rest) = (p ∷ rest, refl)
unless_empty-Appends e (p ∷ paths) rest = (rest, refl)

head_or-Appends :
    {M : Type 0} (e : ℕ) (paths : List Str) (cs : List (Str × M))
    → Appends paths (head_or e paths cs)
head_or-Appends e paths [] = ([], sym (append-nil paths))
head_or-Appends e paths (c ∷ cs) = (c.0 ∷ [], refl)

module _ {M : Type 0} (guard : Branch → Verdict M) (bs : Branches) (paths : List Str) where
  collect-Appends : Appends paths (collect guard enoent bs paths)
  collect-Appends =
      rw (collect-fold guard enoent bs paths)
        (unless_empty-Appends _ paths (names (candidates guard bs)))

  first-Appends : Appends paths (first guard enoent bs paths)
  first-Appends =
      rw (first-fold guard enoent bs paths) (head_or-Appends _ paths (candidates guard bs))

module _ (random_shuffle : List Str → List Str) (v : View) (bs : Branches) (path : Str) (n : ℕ)
    (paths : List Str) where
  -- The searches of the policies but rand and eprand.
  pub search-Appends :
      (k : Kind)
      → k ≢ Kind.rand
      → k ≢ Kind.eprand
      → Appends paths (func random_shuffle v k Category.search bs path n paths)
  unfolding func all epall ff epff mfs epmfs lfs eplfs lus eplus newest erofs_policy invalid_policy
      scan
  search-Appends Kind.invalid h k = ([], sym (append-nil paths))
  search-Appends Kind.all h k = collect-Appends (search_guard v path) bs paths
  search-Appends Kind.epall h k = collect-Appends (search_guard v path) bs paths
  search-Appends Kind.epff h k = first-Appends (search_guard v path) bs paths
  search-Appends Kind.eplfs h k = scan-Appends above u64_max (ep_search_avail_guard v path) bs paths
  search-Appends Kind.eplus h k = scan-Appends at_least 0 (ep_search_used_guard v path) bs paths
  search-Appends Kind.epmfs h k = scan-Appends ltb 0 (ep_search_avail_guard v path) bs paths
  search-Appends Kind.eprand h k = absurd (k refl)
  search-Appends Kind.erofs h k = ([], sym (append-nil paths))
  search-Appends Kind.ff h k = first-Appends (search_guard v path) bs paths
  search-Appends Kind.lfs h k = scan-Appends above u64_max (ep_search_avail_guard v path) bs paths
  search-Appends Kind.lus h k = scan-Appends at_least 0 (ep_search_used_guard v path) bs paths
  search-Appends Kind.mfs h k = scan-Appends ltb 0 (ep_search_avail_guard v path) bs paths
  search-Appends Kind.newest h k =
      push_best-Appends (newest_loop (search_verdict v path) newest_start bs) paths
  search-Appends Kind.rand h k = absurd (h refl)
