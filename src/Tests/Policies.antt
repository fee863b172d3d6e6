-- ===== src/Tests/Policies.antt =====
-- The policies on the pool.
use mathlib.Core.List.Permᴰ as Permutation
use mergerfs.Base.{◌≡◌, refl, [], ◌∷◌, Str, inl, inr, foldl, arith}
use mergerfs.Errno.{enoent, enospc, erofs}
use mergerfs.Policy.Types.{Category, success, failure, calc_error, unless_empty}
use mergerfs.Policy.Kind.{Kind}
use mergerfs.Policy.Table.{codes, func, path_preserving}
use mergerfs.Policy.Guard.{create_guard}
use mergerfs.Policy.Every.{all, collect}
use mergerfs.Policy.First.{ff, first}
use mergerfs.Policy.MostFree.{mfs, epmfs}
use mergerfs.Policy.LeastFree.{lfs, eplfs}
use mergerfs.Policy.LeastUsed.{lus, eplus}
use mergerfs.Policy.Candidates.{candidates, reasons, worst, foldl-calc_error_start}
use mergerfs.Policy.Spec.Every.{names, collect_lem}
use mergerfs.Policy.Spec.First.{head_or, first_lem}
use mergerfs.Policy.Spec.Guards.{create_guard-Reasoned}
use mergerfs.Policy.Spec.Choice.{IsChoice}
use mergerfs.Policy.Spec.Allowed.{Allows, HasPath}
use mergerfs.Policy.Spec.Contract.{func-IsChoice, path_preserving-HasPath}
use mergerfs.Policy.Spec.Optimal.Measures.{ep_space, space, ep_used, used}
use mergerfs.Policy.Spec.Optimal.Most.{IsMost, mfs-IsMost, epmfs-IsMost}
use mergerfs.Policy.Spec.Optimal.Least.{IsLeast, lfs-IsLeast, eplfs-IsLeast}
use mergerfs.Policy.Spec.Optimal.Used.{IsUsedChoice, lus-IsLeastUsed, eplus-IsLeastUsed}
use mergerfs.Policy.Newest.{newest}
use mergerfs.Policy.Spec.Optimal.Dated.{ep_time}
use mergerfs.Policy.Spec.Optimal.Latest.{IsLatest, newest-IsLatest}
use mergerfs.Policy.Spec.Names.{find-name}
use mergerfs.Policy.Table.{find, name}
use mergerfs.Tests.Data.{view, pool}

abbrev file : Str
file = codes "/f"

mfs_takes_large : mfs view Category.create pool file 10 [] ≡ (success, codes "/c" ∷ [])
unfolding mfs
mfs_takes_large = refl

lfs_takes_small : lfs view Category.create pool file 10 [] ≡ (success, codes "/a" ∷ [])
unfolding lfs
lfs_takes_small = refl

all_skips_locked :
    all view Category.create pool file 10 [] ≡ (success, codes "/a" ∷ codes "/c" ∷ [])
unfolding all
all_skips_locked = refl

ff_full : ff view Category.create pool file 1000 [] ≡ (failure erofs, [])
unfolding ff
ff_full = refl

func-IsChoice_example :
    IsChoice
      (Allows view Category.create file 10)
      pool
      (func (λ ps. ps) view Kind.rand Category.create pool file 10 [])
func-IsChoice_example =
    func-IsChoice (λ ps. ps) (λ ps. Permutation.refl ps) view Category.create pool file 10 Kind.rand

path_preserving-HasPath_example :
    IsChoice
      (HasPath view file)
      pool
      (func (λ ps. ps) view Kind.epmfs Category.create pool file 10 [])
unfolding path_preserving
path_preserving-HasPath_example =
    path_preserving-HasPath (λ ps. ps) (λ ps. Permutation.refl ps) view Category.create pool file 10
      Kind.epmfs refl

mfs-IsMost_example :
    IsMost
      (candidates (space view Category.create file 10) pool)
      (reasons (space view Category.create file 10) pool)
      []
      (mfs view Category.create pool file 10 [])
mfs-IsMost_example = mfs-IsMost view file 10 pool [] Category.create

epmfs-IsMost_example :
    IsMost
      (candidates (ep_space view Category.action file 10) pool)
      (reasons (ep_space view Category.action file 10) pool)
      []
      (epmfs view Category.action pool file 10 [])
epmfs-IsMost_example = epmfs-IsMost view file 10 pool [] Category.action

lfs-IsLeast_example :
    IsLeast
      (candidates (space view Category.create file 10) pool)
      (reasons (space view Category.create file 10) pool)
      []
      (lfs view Category.create pool file 10 [])
lfs-IsLeast_example = lfs-IsLeast view file 10 pool [] Category.create

eplfs-IsLeast_example :
    IsLeast
      (candidates (ep_space view Category.search file 10) pool)
      (reasons (ep_space view Category.search file 10) pool)
      []
      (eplfs view Category.search pool file 10 [])
eplfs-IsLeast_example = eplfs-IsLeast view file 10 pool [] Category.search

lus-IsLeastUsed_example :
    IsUsedChoice Category.create
      (candidates (used view Category.create file 10) pool)
      (reasons (used view Category.create file 10) pool)
      []
      (lus view Category.create pool file 10 [])
lus-IsLeastUsed_example = lus-IsLeastUsed view file 10 pool [] Category.create

eplus-IsLeastUsed_example :
    IsUsedChoice Category.search
      (candidates (ep_used view Category.search file 10) pool)
      (reasons (ep_used view Category.search file 10) pool)
      []
      (eplus view Category.search pool file 10 [])
eplus-IsLeastUsed_example = eplus-IsLeastUsed view file 10 pool [] Category.search

collect_lem_example :
    collect (create_guard view 10) enoent pool []
    ≡ unless_empty
        (worst (reasons (create_guard view 10) pool))
        (names (candidates (create_guard view 10) pool))
collect_lem_example = collect_lem (create_guard view 10) pool [] (create_guard-Reasoned view 10)

first_lem_example :
    first (create_guard view 10) enoent pool []
    ≡ head_or
        (worst (reasons (create_guard view 10) pool))
        []
        (candidates (create_guard view 10) pool)
first_lem_example = first_lem (create_guard view 10) pool [] (create_guard-Reasoned view 10)

foldl-calc_error_example :
    foldl calc_error enoent (enospc ∷ erofs ∷ enoent ∷ []) ≡ worst (enospc ∷ erofs ∷ enoent ∷ [])
foldl-calc_error_example =
    foldl-calc_error_start (enospc ∷ erofs ∷ enoent ∷ [])
      (inr (inl refl), (inr (inr refl), (inl refl, tt)))

find-name_example : find (name Kind.lus) ≡ Kind.lus
find-name_example = find-name Kind.lus

newest-IsLatest_example :
    IsLatest
      (candidates (ep_time view Category.create file 10) pool)
      (reasons (ep_time view Category.create file 10) pool)
      []
      (newest view Category.create pool file 10 [])
newest-IsLatest_example =
    newest-IsLatest view (λ p st e. ground arith) file 10 Category.create pool []
