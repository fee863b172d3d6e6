-- ===== src/Fuse/Link.antt =====
-- src/fuse_link.cpp.
use mergerfs.Base.{
  ℤ, negsuc, neg_ℤ, neg_of, not, ◌&&◌, List, [], ◌∷◌, Str, str_eq, ◌==◌, if◌then◌else◌,
}
use mergerfs.Errno.{enoent, exdev}
use mergerfs.Os.{Os}
use mergerfs.Path.{dirname}
use mergerfs.ClonePath.{clonepath_as_root}
use mergerfs.Policy.Types.{Category, Outcome, Rv, success, failure, make}
use mergerfs.Policy.Kind.{Kind}
use mergerfs.Policy.Table.{path_preserving}
use mergerfs.Fuse.Config.{Config, State, run_policy}
use mergerfs.Fuse.Action.{fold_rv, in_world}

module _ (os : Os) where
  -- Of `link_create_path_loop`, one round after the clone.
  unfoldable pub link_create_path_core : Str → Str → Str → ℤ → Rv × os.World → ℤ × os.World
  unfolding fold_rv make
  link_create_path_core oldbasepath oldfusepath newfusepath error (failure e, w) =
      (fold_rv (failure e) error, w)
  link_create_path_core oldbasepath oldfusepath newfusepath error (success, w) =
      let (r, w') = os.link (make oldbasepath oldfusepath) (make oldbasepath newfusepath) w in
      (fold_rv r error, w')

  unfoldable pub link_create_path_loop :
      List Str → Str → Str → Str → Str → ℤ → os.World → ℤ × os.World
  unfolding link_create_path_core clonepath_as_root
  link_create_path_loop [] newbasepath oldfusepath newfusepath newfusedirpath error w = (error, w)
  link_create_path_loop (p ∷ ps) newbasepath oldfusepath newfusepath newfusedirpath error w =
      let (error', w') =
        link_create_path_core p oldfusepath newfusepath error
          (clonepath_as_root os newbasepath p newfusedirpath w) in
      link_create_path_loop ps newbasepath oldfusepath newfusepath newfusedirpath error' w'

  -- As in `on_created`, the clause for a success with no path is never reached.
  unfoldable pub link_create_path_on : Str → Str → Outcome → Outcome → os.World → ℤ × os.World
  unfolding link_create_path_loop dirname
  link_create_path_on oldfusepath newfusepath (failure e, ps) target w = (neg_of e, w)
  link_create_path_on oldfusepath newfusepath (success, ps) (failure e, qs) w = (neg_of e, w)
  link_create_path_on oldfusepath newfusepath (success, ps) (success, []) w = (neg_of 0, w)
  link_create_path_on oldfusepath newfusepath (success, ps) (success, q ∷ qs) w =
      let (error, w') =
        link_create_path_loop ps q oldfusepath newfusepath (dirname newfusepath) (negsuc 0) w in
      (neg_ℤ error, w')

  -- `link_create_path`, with the policy of its search and that of its action.
  unfoldable pub link_create_path : Kind → Kind → Config → Str → Str → os.World → ℤ × os.World
  unfolding link_create_path_on run_policy dirname
  link_create_path search_policy action_policy cfg oldfusepath newfusepath w =
      link_create_path_on oldfusepath newfusepath
        (run_policy os Category.action action_policy cfg oldfusepath [] w)
        (run_policy os Category.search search_policy cfg (dirname newfusepath) [] w) w

  -- After the search, whose vector already held what the create policy gave: the first path of it
  -- is the branch of the create policy.
  unfoldable pub clone_found : Outcome → Str → Str → os.World → Rv × os.World
  unfolding clonepath_as_root
  clone_found (failure e, ps) oldbasepath fusedirpath w = (failure e, w)
  clone_found (success, []) oldbasepath fusedirpath w = (success, w)
  clone_found (success, p ∷ ps) oldbasepath fusedirpath w =
      clonepath_as_root os p oldbasepath fusedirpath w

  -- `l::clonepath_if_would_create` after the call of the create policy.
  unfoldable pub clone_if_created : Config → Outcome → Str → Str → os.World → Rv × os.World
  unfolding clone_found run_policy str_eq
  clone_if_created cfg (failure e, ps) oldbasepath fusedirpath w = (failure e, w)
  clone_if_created cfg (success, []) oldbasepath fusedirpath w = (success, w)
  clone_if_created cfg (success, p ∷ ps) oldbasepath fusedirpath w =
      if not (str_eq oldbasepath p)
      then (failure exdev, w)
      else clone_found (run_policy os Category.search cfg.getattr cfg fusedirpath (p ∷ ps) w)
          oldbasepath fusedirpath w

  unfoldable pub clonepath_if_would_create : Config → Str → Str → os.World → Rv × os.World
  unfolding clone_if_created run_policy dirname
  clonepath_if_would_create cfg oldbasepath newfusepath w =
      clone_if_created cfg (run_policy os Category.create cfg.create cfg (dirname newfusepath) [] w)
        oldbasepath (dirname newfusepath) w

  -- `if(rv != -1) rv = fs::link(oldfullpath,newfullpath);`
  unfoldable pub retry_link : Str → Str → Rv × os.World → Rv × os.World
  retry_link oldfullpath newfullpath (failure e, w) = (failure e, w)
  retry_link oldfullpath newfullpath (success, w) = os.link oldfullpath newfullpath w

  unfoldable pub link_or_clone : Config → Str → Str → Str → Str → Rv × os.World → Rv × os.World
  unfolding retry_link clonepath_if_would_create
  link_or_clone cfg oldbasepath newfusepath oldfullpath newfullpath (success, w) = (success, w)
  link_or_clone cfg oldbasepath newfusepath oldfullpath newfullpath (failure e, w) =
      if e == enoent
      then retry_link oldfullpath newfullpath
          (clonepath_if_would_create cfg oldbasepath newfusepath w)
      else (failure e, w)

  unfoldable pub link_preserve_path_core : Config → Str → Str → Str → ℤ → os.World → ℤ × os.World
  unfolding link_or_clone fold_rv make
  link_preserve_path_core cfg oldbasepath oldfusepath newfusepath error w =
      let oldfullpath = make oldbasepath oldfusepath in
      let newfullpath = make oldbasepath newfusepath in
      let (r, w') =
        link_or_clone cfg oldbasepath newfusepath oldfullpath newfullpath
          (os.link oldfullpath newfullpath w) in
      (fold_rv r error, w')

  unfoldable pub link_preserve_path_loop :
      Config → Str → Str → List Str → ℤ → os.World → ℤ × os.World
  unfolding link_preserve_path_core
  link_preserve_path_loop cfg oldfusepath newfusepath [] error w = (error, w)
  link_preserve_path_loop cfg oldfusepath newfusepath (p ∷ ps) error w =
      let (error', w') = link_preserve_path_core cfg p oldfusepath newfusepath error w in
      link_preserve_path_loop cfg oldfusepath newfusepath ps error' w'

  unfoldable pub link_preserve_path_on : Config → Str → Str → Outcome → os.World → ℤ × os.World
  unfolding link_preserve_path_loop
  link_preserve_path_on cfg oldfusepath newfusepath (failure e, ps) w = (neg_of e, w)
  link_preserve_path_on cfg oldfusepath newfusepath (success, ps) w =
      let (error, w') = link_preserve_path_loop cfg oldfusepath newfusepath ps (negsuc 0) w in
      (neg_ℤ error, w')

  unfoldable pub link_preserve_path : Config → Str → Str → os.World → ℤ × os.World
  unfolding link_preserve_path_on run_policy
  link_preserve_path cfg oldfusepath newfusepath w =
      link_preserve_path_on cfg oldfusepath newfusepath
        (run_policy os Category.action cfg.link cfg oldfusepath [] w) w

  -- `FUSE::link`: the second call gives `config.link` for the search and `config.create` for the
  -- action.
  unfoldable pub link : Config → Str → Str → State os → ℤ × State os
  unfolding link_create_path link_preserve_path path_preserving in_world
  link cfg from to = in_world os (
      if path_preserving cfg.create && not cfg.ignorepponrename
      then link_preserve_path cfg from to
      else link_create_path cfg.link cfg.create cfg from to)
