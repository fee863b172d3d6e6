-- ===== src/Tests/Handlers.antt =====
-- The handlers on the pool.
use mergerfs.Base.{◌≡◌, refl, pos, true, List, [], ◌∷◌, ◌++◌, Str, arith, All, All-append}
use mergerfs.Os.{Os}
use mergerfs.Path.{dirname}
use mergerfs.Policy.Types.{Category, failure, make}
use mergerfs.Policy.Kind.{Kind}
use mergerfs.Policy.Table.{codes, path_preserving}
use mergerfs.PolicyCache.{erase}
use mergerfs.ClonePath.{clonepath_as_root}
use mergerfs.ClonePath.Frame.{Keeps, clonepath_as_root-Keeps}
use mergerfs.Fuse.Config.{Config, run_policy}
use mergerfs.Fuse.Action.{action, unlink}
use mergerfs.Fuse.Create.{make_node}
use mergerfs.Fuse.Link
use mergerfs.Fuse.Link.{link}
use mergerfs.Fuse.Results.Idle.{clonepath_if_would_create_idle}
use mergerfs.Fuse.Rename.{member, start, rename, rename_preserve_path_core}
use mergerfs.Fuse.Results.Actions.{IsActed, action-IsActed}
use mergerfs.Fuse.Results.Creations.{IsCloned, make_node-IsCloned}
use mergerfs.Fuse.Results.Links.{IsLinked, link-IsLinked}
use mergerfs.Fuse.Results.Renamed.{IsRenamed, rename-IsRenamed}
use mergerfs.Fuse.Results.Preserved.{IsPreserved, rename-IsPreserved}
use mergerfs.Fuse.Results.Linked.{IsTried, link-IsTried}
use mergerfs.Fuse.Results.Lost.{rename_preserve_path_core_lost}
use mergerfs.Tests.Data.{toy, toy-IsLawful, config, begin}

abbrev old : Str
old = codes "/d/f"

abbrev new : Str
new = codes "/e/g"

abbrev free : Config
free = record config { ignorepponrename = true; create = Kind.mfs }

dirname_of_old : dirname old ≡ codes "/d"
unfolding dirname
dirname_of_old = refl

-- A directory that is cloned: it is made, and its attributes are copied.
abbrev made : Str
made = codes "/c/e"

-- A file is renamed on both branches that may be changed, and its new path removed from the other.
rename_run :
    ((rename toy free old new begin).0 ≡ pos 0)
    × ((rename toy free old new begin).1.world
        ≡ codes "/a/e/g" ∷ made ∷ made ∷ made ∷ made ∷ made ∷ codes "/c/e/g" ∷ codes "/b/e/g" ∷ [])
unfolding rename mergerfs.Policy.Every.epall mergerfs.Policy.First.ff
rename_run = (refl, refl)

unlink_run : (unlink toy config old begin).1.world ≡ codes "/a/d/f" ∷ codes "/c/d/f" ∷ []
unfolding unlink mergerfs.Policy.Every.epall
unlink_run = refl

rename-IsRenamed_example :
    IsRenamed toy old new free.branches
      (run_policy toy Category.action free.rename free old [] [])
      (run_policy toy Category.search free.getattr free (dirname new) [] [])
      []
      ((rename toy free old new begin).0, (rename toy free old new begin).1.world)
    × ((rename toy free old new begin).1.open_cache ≡ erase old [])
unfolding path_preserving
rename-IsRenamed_example = rename-IsRenamed toy toy-IsLawful old new free begin refl

rename-IsPreserved_example :
    IsPreserved toy config old new
      (run_policy toy Category.action config.rename config old [] [])
      []
      ((rename toy config old new begin).0, (rename toy config old new begin).1.world)
    × ((rename toy config old new begin).1.open_cache ≡ erase old [])
unfolding path_preserving
rename-IsPreserved_example = rename-IsPreserved toy toy-IsLawful old new config begin refl

action-IsActed_example :
    IsActed toy toy.unlink old
      (run_policy toy Category.action Kind.epall config old [] [])
      []
      (action toy toy.unlink Kind.epall config old [])
action-IsActed_example =
    action-IsActed toy toy.unlink (λ p w. tt) toy-IsLawful Kind.epall config old []

make_node-IsCloned_example :
    IsCloned toy
      (dirname new)
      (λ p. toy.symlink old (make p new))
      (run_policy toy Category.search config.getattr config (dirname new) [] [])
      (run_policy toy Category.create Kind.epmfs config (dirname new) [] [])
      []
      (make_node toy (toy.symlink old) Kind.epmfs config new [])
make_node-IsCloned_example =
    make_node-IsCloned toy (toy.symlink old) toy-IsLawful (λ p w. tt) Kind.epmfs config new []

link-IsLinked_example :
    IsLinked toy old new
      (run_policy toy Category.action free.create free old [] [])
      (run_policy toy Category.search free.link free (dirname new) [] [])
      []
      ((link toy free old new begin).0, (link toy free old new begin).1.world)
unfolding path_preserving
link-IsLinked_example = link-IsLinked toy old new toy-IsLawful free begin refl

link-IsTried_example :
    IsTried toy config old new
      (run_policy toy Category.action config.link config old [] [])
      []
      ((link toy config old new begin).0, (link toy config old new begin).1.world)
unfolding path_preserving
link-IsTried_example = link-IsTried toy config old new toy-IsLawful begin refl

-- An operating system where every rename fails for want of the new directory.
abbrev absent : Os
absent = record toy { rename = λ p q w. (failure 2, w) }

-- Files are put on the first branch, and attributes are never found.
abbrev blind : Config
blind = record config { create = Kind.epff; getattr = Kind.erofs }

abbrev a : Str
a = codes "/a"

rename_preserve_path_core_lost_example :
    rename_preserve_path_core absent blind (a ∷ []) a old new (start absent [])
    ≡ record { error = pos 0; toremove = []; world = [] }
unfolding run_policy member mergerfs.Policy.First.epff mergerfs.Policy.Random.erofs_policy
rename_preserve_path_core_lost_example =
    rename_preserve_path_core_lost absent blind (a ∷ []) a old new (start absent []) [] 30 [] []
      refl refl refl refl (omega arith)

-- Every call that was made is on a path of the branch.
abbrev IsWithin : Str → List Str → Type 0
IsWithin to = All (λ p. (r : Str) × (p ≡ make to r))

IsWithin-logged : (to r : Str) (w : List Str) → IsWithin to w → IsWithin to (w ++ make to r ∷ [])
IsWithin-logged to r w h = All-append (λ p. (s : Str) × (p ≡ make to s)) w _ h ((r, refl), tt)

toy-Keeps : (to : Str) → Keeps toy to (IsWithin to)
toy-Keeps to = record {
  by_stat = λ p w h. h;
  by_mkdir = λ r m w h. IsWithin-logged to r w h;
  by_copy_attr = λ p r w h. IsWithin-logged to r w h;
  by_copy_xattr = λ p r w h. IsWithin-logged to r w h;
  by_lchown = λ r st w h. IsWithin-logged to r w h;
  by_utime = λ r st w h. IsWithin-logged to r w h;
}

clonepath_as_root-Keeps_example :
    IsWithin (codes "/c") (clonepath_as_root toy a (codes "/c") (dirname old) []).1
clonepath_as_root-Keeps_example =
    clonepath_as_root-Keeps toy a (codes "/c") (IsWithin (codes "/c")) (toy-Keeps (codes "/c"))
      (dirname old) [] tt

clonepath_if_would_create_idle_example : (Link.clonepath_if_would_create toy config a new []).1 ≡ []
clonepath_if_would_create_idle_example =
    clonepath_if_would_create_idle toy config (λ e. cc) (λ e. cc) a new []
