-- ===== src/Policy/Spec/Failing.antt =====
-- A search that fails sets a positive `errno`, whatever the vector holds.
use mergerfs.Base.{ℕ, ◌<◌, ◌≡◌, refl, List, [], ◌∷◌, Str, arith, inl, inr, Option-cases}
use mergerfs.Branch.{Branch, Branches}
use mergerfs.Errno.{enoent}
use mergerfs.Os.{SetsErrno}
use mergerfs.Policy.Types.{View, Category, Outcome, success, failure, unless_empty}
use mergerfs.Policy.Guard.{Verdict}
use mergerfs.Policy.Every.{collect, search_guard, all, epall}
use mergerfs.Policy.First.{first, ff, epff}
use mergerfs.Policy.Scan.{Scan, push_best}
use mergerfs.Policy.Newest.{newest, newest_loop, newest_start, search_verdict}
use mergerfs.Policy.Random.{shuffle_if, rand, eprand, erofs_policy, invalid_policy}
use mergerfs.Policy.Kind.{Kind}
use mergerfs.Policy.Table.{func}
use mergerfs.Policy.Candidates.{candidates, reasons, Reasoned}
use mergerfs.Policy.Spec.Every.{collect_lem}
use mergerfs.Policy.Spec.First.{first_lem, head_or}
use mergerfs.Policy.Spec.Choice.{worst_pos, IsChoice}
use mergerfs.Policy.Spec.Guards.{search_guard-Reasoned}
use mergerfs.Policy.Spec.Recent.{newest-IsChoice}
use mergerfs.Policy.Spec.Optimal.Most.{IsMost, epmfs-IsMost, mfs-IsMost}
use mergerfs.Policy.Spec.Optimal.Least.{IsLeast, eplfs-IsLeast, lfs-IsLeast}
use mergerfs.Policy.Spec.Optimal.Used.{eplus-IsLeastUsed, lus-IsLeastUsed}

unless_empty-SetsErrno : (e : ℕ) (ps : List Str) → 0 < e → SetsErrno (unless_empty e ps).0
unfolding unless_empty
unless_empty-SetsErrno e [] h = h
unless_empty-SetsErrno e (p ∷ ps) h = tt

head_or-SetsErrno :
    {M : Type 0} (e : ℕ) (paths : List Str) (cs : List (Str × M))
    → 0 < e
    → SetsErrno (head_or e paths cs).0
head_or-SetsErrno e paths [] h = h
head_or-SetsErrno e paths (c ∷ cs) h = tt

module _ {M : Type 0} (guard : Branch → Verdict M) (h : Reasoned guard) (bs : Branches)
    (paths : List Str) where
  pub collect-SetsErrno : SetsErrno (collect guard enoent bs paths).0
  collect-SetsErrno =
      rw (collect_lem guard bs paths h) (unless_empty-SetsErrno _ _ (worst_pos (reasons guard bs)))

  pub first-SetsErrno : SetsErrno (first guard enoent bs paths).0
  first-SetsErrno =
      rw (first_lem guard bs paths h)
        (head_or-SetsErrno _ paths (candidates guard bs) (worst_pos (reasons guard bs)))

IsMost-SetsErrno :
    (cs : List (Str × ℕ)) (es : List ℕ) (paths : List Str) (o : Outcome)
    → IsMost cs es paths o
    → SetsErrno o.0
IsMost-SetsErrno cs es paths (success, ps) h = tt
IsMost-SetsErrno cs es paths (failure e, ps) (h, why, same) = rw why (worst_pos es)

IsLeast-SetsErrno :
    (cs : List (Str × ℕ)) (es : List ℕ) (paths : List Str) (o : Outcome)
    → IsLeast cs es paths o
    → SetsErrno o.0
IsLeast-SetsErrno cs es paths (success, ps) h = tt
IsLeast-SetsErrno cs es paths (failure e, ps) (h, why, same) = rw why (worst_pos es)

missing-SetsErrno : (o : Outcome) (paths : List Str) → o ≡ (failure enoent, paths) → SetsErrno o.0
missing-SetsErrno o paths h = rw h (omega arith)

IsChoice-SetsErrno :
    (P : Branch → Type 0) (bs : Branches) (o : Outcome) → IsChoice P bs o → SetsErrno o.0
IsChoice-SetsErrno P bs (success, ps) h = tt
IsChoice-SetsErrno P bs (failure e, ps) h = h.1

push_best-rv :
    {M : Type 0} (s : Scan M) (paths : List Str) → (push_best s paths).0 ≡ (push_best s []).0
unfolding push_best
push_best-rv s paths = elim (Option-cases s.base) [ inl e ↦ rw e refl | inr (p, e) ↦ rw e refl ]

shuffle_if-SetsErrno :
    (random_shuffle : List Str → List Str) (o : Outcome)
    → SetsErrno o.0
    → SetsErrno (shuffle_if random_shuffle o).0
unfolding shuffle_if
shuffle_if-SetsErrno random_shuffle (success, ps) h = tt
shuffle_if-SetsErrno random_shuffle (failure e, ps) h = h

module _ (random_shuffle : List Str → List Str) (v : View) (bs : Branches) (path : Str) (n : ℕ)
    (paths : List Str) where
  listed : SetsErrno (collect (search_guard v path) enoent bs paths).0
  listed = collect-SetsErrno (search_guard v path) (search_guard-Reasoned v path) bs paths

  found_first : SetsErrno (first (search_guard v path) enoent bs paths).0
  found_first = first-SetsErrno (search_guard v path) (search_guard-Reasoned v path) bs paths

  newest-SetsErrno : SetsErrno (newest v Category.search bs path n paths).0
  unfolding newest
  newest-SetsErrno =
      rw (push_best-rv (newest_loop (search_verdict v path) newest_start bs) paths)
        (IsChoice-SetsErrno _ bs _ (newest-IsChoice v path n bs Category.search))

  pub search-SetsErrno :
      (k : Kind) → SetsErrno (func random_shuffle v k Category.search bs path n paths).0
  unfolding func all epall ff epff rand eprand erofs_policy invalid_policy
  search-SetsErrno Kind.invalid = omega arith
  search-SetsErrno Kind.all = listed
  search-SetsErrno Kind.epall = listed
  search-SetsErrno Kind.epff = found_first
  search-SetsErrno Kind.eplfs =
      IsLeast-SetsErrno _ _ paths _ (eplfs-IsLeast v path n bs paths Category.search)
  search-SetsErrno Kind.eplus =
      missing-SetsErrno _ paths (eplus-IsLeastUsed v path n bs paths Category.search)
  search-SetsErrno Kind.epmfs =
      IsMost-SetsErrno _ _ paths _ (epmfs-IsMost v path n bs paths Category.search)
  search-SetsErrno Kind.eprand = shuffle_if-SetsErrno random_shuffle _ listed
  search-SetsErrno Kind.erofs = omega arith
  search-SetsErrno Kind.ff = found_first
  search-SetsErrno Kind.lfs =
      IsLeast-SetsErrno _ _ paths _ (lfs-IsLeast v path n bs paths Category.search)
  search-SetsErrno Kind.lus =
      missing-SetsErrno _ paths (lus-IsLeastUsed v path n bs paths Category.search)
  search-SetsErrno Kind.mfs =
      IsMost-SetsErrno _ _ paths _ (mfs-IsMost v path n bs paths Category.search)
  search-SetsErrno Kind.newest = newest-SetsErrno
  search-SetsErrno Kind.rand = shuffle_if-SetsErrno random_shuffle _ listed
