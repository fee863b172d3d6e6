-- ===== src/Policy/Spec/Contract.antt =====
-- The contract of every policy in the table, in every category.
use mathlib.Core.List.{Permᴰ}
use mergerfs.Base.{ℕ, ◌≡◌, refl, true, List, [], Str, arith}
use mergerfs.Branch.{Branches}
use mergerfs.Policy.Types.{View, Category, Outcome}
use mergerfs.Policy.Kind.{Kind}
use mergerfs.Policy.Table.{func, path_preserving}
use mergerfs.Policy.Random.{erofs_policy, invalid_policy}
use mergerfs.Policy.Spec.Choice.{IsChoice}
use mergerfs.Policy.Spec.Allowed.{Allows, HasPath}
use mergerfs.Policy.Spec.Measured.{
  Strong, epmfs-IsChoice, mfs-IsChoice, eplfs-IsChoice, lfs-IsChoice, eplus-IsChoice, lus-IsChoice,
}
use mergerfs.Policy.Spec.Listed.{
  IsChoice-map, epall-IsChoice, epff-IsChoice, all-IsChoice, ff-IsChoice, rand-IsChoice,
  eprand-IsChoice,
}
use mergerfs.Policy.Spec.Recent.{newest-IsChoice}

module _ (random_shuffle : List Str → List Str)
    (permutes : (ps : List Str) → Permᴰ (random_shuffle ps) ps) (v : View) (cat : Category)
    (bs : Branches) (path : Str) (n : ℕ) where
  weaken : (o : Outcome) → IsChoice (Strong v cat path n) bs o → IsChoice (Allows v cat path n) bs o
  weaken o = IsChoice-map _ _ bs o (λ b h. h.1)

  found : (o : Outcome) → IsChoice (Strong v cat path n) bs o → IsChoice (HasPath v path) bs o
  found o = IsChoice-map _ _ bs o (λ b h. h.0)

  -- Every policy of the table, in every category, called with an empty vector: if it succeeds, it gives
  -- at least one path, and each is that of a configured branch that offers what the category needs
  -- (`Allows`); if it fails, it gives no path and a positive `errno`. It is assumed that
  -- `std::random_shuffle` permutes.
  pub func-IsChoice :
      (k : Kind) → IsChoice (Allows v cat path n) bs (func random_shuffle v k cat bs path n [])
  unfolding func invalid_policy erofs_policy
  func-IsChoice Kind.invalid = (refl, omega arith)
  func-IsChoice Kind.all = all-IsChoice v path n bs cat
  func-IsChoice Kind.epall = weaken _ (epall-IsChoice v path n bs cat)
  func-IsChoice Kind.epff = weaken _ (epff-IsChoice v path n bs cat)
  func-IsChoice Kind.eplfs = weaken _ (eplfs-IsChoice v path n bs cat)
  func-IsChoice Kind.eplus = weaken _ (eplus-IsChoice v path n bs cat)
  func-IsChoice Kind.epmfs = weaken _ (epmfs-IsChoice v path n bs cat)
  func-IsChoice Kind.eprand = weaken _ (eprand-IsChoice random_shuffle permutes v path n bs cat)
  func-IsChoice Kind.erofs = (refl, omega arith)
  func-IsChoice Kind.ff = ff-IsChoice v path n bs cat
  func-IsChoice Kind.lfs = lfs-IsChoice v path n bs cat
  func-IsChoice Kind.lus = lus-IsChoice v path n bs cat
  func-IsChoice Kind.mfs = mfs-IsChoice v path n bs cat
  func-IsChoice Kind.newest = weaken _ (newest-IsChoice v path n bs cat)
  func-IsChoice Kind.rand = rand-IsChoice random_shuffle permutes v path n bs cat

  -- A policy that the table calls path-preserving, in every category, gives only paths of configured
  -- branches where the path exists, and at least one on success; on failure it gives none, and a
  -- positive `errno`. It is assumed that `std::random_shuffle` permutes.
  pub path_preserving-HasPath :
      (k : Kind)
      → path_preserving k ≡ true
      → IsChoice (HasPath v path) bs (func random_shuffle v k cat bs path n [])
  unfolding func path_preserving
  path_preserving-HasPath Kind.epall h = found _ (epall-IsChoice v path n bs cat)
  path_preserving-HasPath Kind.epff h = found _ (epff-IsChoice v path n bs cat)
  path_preserving-HasPath Kind.eplfs h = found _ (eplfs-IsChoice v path n bs cat)
  path_preserving-HasPath Kind.eplus h = found _ (eplus-IsChoice v path n bs cat)
  path_preserving-HasPath Kind.epmfs h = found _ (epmfs-IsChoice v path n bs cat)
  path_preserving-HasPath Kind.eprand h =
      found _ (eprand-IsChoice random_shuffle permutes v path n bs cat)
  path_preserving-HasPath _ h = absurd (ground arith)
